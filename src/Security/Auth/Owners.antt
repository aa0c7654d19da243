-- ===== src/Security/Auth/Owners.antt =====
-- A refresh token is its owner's: to issue one changes nothing for other users.
use labfunctions.Prelude.{ℕ, ◌≡◌, ◌≢◌, false, Option, some, arith}
use labfunctions.Text.{Text, teq, teq-false, has_char}
use labfunctions.Text.Split.{last-injective}
use labfunctions.Security.Types.{JwtConfig}
use labfunctions.Security.Store.{TokenStore}
use labfunctions.Security.Auth.{
  Jwt, Payload, token_key, store_refresh_token, validate_refresh_token, or_ttl,
}
use labfunctions.Security.Auth.Refresh.{Identifies, validate_refresh_token_lem}

module _ (conf : JwtConfig) (jwt : Jwt) (store : TokenStore) where
  -- Tokens hold no dot, so a key shows its user: names may hold dots.
  token_key-injective :
      (u v r r' : Text)
      → has_char b'.' r ≡ false
      → has_char b'.' r' ≡ false
      → token_key conf jwt store u r ≡ token_key conf jwt store v r'
      → u ≡ v
  token_key-injective u v r r' h h' e = (last-injective b'.' u v r r' e h h').0

  -- To issue a refresh token to one user leaves what every other user can refresh with as it was,
  -- for refresh tokens without a dot.
  pub validate-store_ne :
      (now : ℕ) (access fresh refresh u v : Text) (ttl : Option ℕ) (d : Payload) (s : store.State)
      → Identifies conf jwt store now access d v
      → u ≢ v
      → has_char b'.' fresh ≡ false
      → has_char b'.' refresh ≡ false
      → (validate_refresh_token conf jwt store now access refresh
          (store_refresh_token conf jwt store fresh u ttl s).1).0
        ≡ (validate_refresh_token conf jwt store now access refresh s).0
  unfolding store_refresh_token
  validate-store_ne now access fresh refresh u v ttl d s who differ h h' =
      let other : teq (token_key conf jwt store u fresh) (token_key conf jwt store v refresh)
          ≡ false =
        teq-false _ _ (λ e. differ (token_key-injective u v fresh refresh h h' e)) in
      ground (
        arith,
        validate_refresh_token_lem conf jwt store now access d v who refresh s,
        validate_refresh_token_lem conf jwt store now access d v who refresh
            (store_refresh_token conf jwt store fresh u ttl s).1,
        store.get-put s (token_key conf jwt store u fresh) (token_key conf jwt store v refresh) u
            (some (or_ttl conf jwt store ttl)),
      )
