-- ===== src/Security/Auth/Refresh.antt =====
-- `Auth.refresh_token`: when it answers, what it leaves in the store, and that a refresh token
-- serves once.
use labfunctions.Prelude.{ℕ, ◌≡◌, ◌≢◌, true, false, ◌∷◌, none, some, if◌then◌else◌, arith}
use labfunctions.Text.{Text, teq, teq_refl, teq-false, teq-append_left}
use labfunctions.Effects.{ok, err}
use labfunctions.Security.Types.{JwtConfig, JwtResponse}
use labfunctions.Security.Store.{TokenStore}
use labfunctions.Security.Auth.{
  Jwt, Payload, auth_validation_failed, decode, encode, usr_of, token_key, validate_refresh_token,
  refresh_token, equals_text,
}

module _ (conf : JwtConfig) (jwt : Jwt) (store : TokenStore) where
  -- The token is the user's: signed (its expiry aside), with this "usr".
  abbrev pub Identifies : ℕ → Text → Payload → Text → Type 0
  Identifies now access d u =
      (decode conf jwt now access true false none none ≡ some d) × (usr_of conf jwt d ≡ some u)

  module _ (now : ℕ) (access : Text) (d : Payload) (u : Text)
      (who : Identifies now access d u) where
    pub validate_refresh_token_lem :
        (refresh : Text) (s : store.State)
        → validate_refresh_token conf jwt store now access refresh s ≡ (
          ok (equals_text conf jwt store u (store.get s (token_key conf jwt store u refresh))),
          s,
        )
    unfolding validate_refresh_token
    validate_refresh_token_lem refresh s = ground (arith, who)

    pub refresh_token_lem :
        (fresh refresh : Text) (s : store.State)
        → refresh_token conf jwt store now fresh access refresh s ≡ (
            if equals_text conf jwt store u (store.get s (token_key conf jwt store u refresh))
            then (
              ok (record {
                access_token = encode conf jwt now d none none none;
                refresh_token = some fresh;
              }),
              store.put
                  (store.delete s (token_key conf jwt store u refresh))
                  (token_key conf jwt store u fresh)
                  u
                  (some conf.ttl_refresh_token),
            )
            else (err auth_validation_failed, s))
    unfolding refresh_token
    refresh_token_lem fresh refresh s = ground (arith, who)

  same_user_key :
      (u r r' : Text)
      → teq (token_key conf jwt store u r) (token_key conf jwt store u r') ≡ teq r r'
  unfolding teq
  same_user_key u r r' = teq-append_left u (b'.' ∷ r) (b'.' ∷ r')

  -- After a refresh that answered, the old refresh token is refused for every access token of the
  -- user and changes nothing, and the new one is accepted, given that the new random token differs
  -- from the old one.
  pub refresh_token-once :
      (now now' : ℕ) (access access' fresh fresh' refresh u : Text) (d d' : Payload)
      (s s' : store.State) (answer : JwtResponse)
      → Identifies now access d u
      → Identifies now' access' d' u
      → fresh ≢ refresh
      → refresh_token conf jwt store now fresh access refresh s ≡ (ok answer, s')
      → (refresh_token conf jwt store now' fresh' access' refresh s'
          ≡ (err auth_validation_failed, s'))
        × (validate_refresh_token conf jwt store now' access' fresh s' ≡ (ok true, s'))
  refresh_token-once now now' access access' fresh fresh' refresh u d d' s s' answer who who' differ
        answered =
      let old = token_key conf jwt store u refresh in
      let new = token_key conf jwt store u fresh in
      let first = refresh_token_lem now access d u who fresh refresh s in
      let left : s' ≡ store.put (store.delete s old) new u (some conf.ttl_refresh_token) =
        ground (arith, first) in
      let gone : store.get s' old ≡ none =
        rw (left, store.get-put, same_user_key u fresh refresh, teq-false fresh refresh differ)
          (rw (store.get-delete, teq_refl old)) in
      let there : store.get s' new ≡ some u = rw (left, store.get-put, teq_refl new) in
      (
        ground (arith, refresh_token_lem now' access' d' u who' fresh' refresh s'),
        ground (arith, validate_refresh_token_lem now' access' d' u who' fresh s', teq_refl u),
      )
