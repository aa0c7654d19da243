-- ===== src/Web/Login.antt =====
-- `login_handler` of labfunctions/security/auth_bp.py, and `get_jwt_token` of
-- labfunctions/managers/users_mg.py.
use labfunctions.Prelude.{ℕ, [], ◌∷◌, Option, none, some}
use labfunctions.Text.{Text, codes}
use labfunctions.Text.Split.{split_all}
use labfunctions.Effects.{Result, ok, err}
use labfunctions.Security.Types.{JwtConfig, JwtResponse, UserLogin}
use labfunctions.Security.Store.{TokenStore}
use labfunctions.Security.Auth.{
  Jwt, Payload, AuthError, text, texts, encode, get_delta, store_refresh_token,
}
use labfunctions.Users.{UserModel, Users, Kdf, authenticate}
use labfunctions.Web.Auth.{WebError, web_error, Answer, tokens}

-- The claims of a user.
abbrev pub claims_of : UserModel → Payload
claims_of user =
    (codes "usr", text user.username) ∷ (codes "scopes", texts (split_all b',' user.scopes)) ∷ []

module _ (conf : JwtConfig) (jwt : Jwt) (store : TokenStore) where
  -- `exp` are minutes.
  unfoldable pub get_jwt_token :
      ℕ → Text → UserModel → ℕ → store.State → Result AuthError JwtResponse × store.State
  unfolding store_refresh_token
  get_jwt_token now fresh user exp s =
      let access_token =
        encode conf jwt now (claims_of user) (some (get_delta now exp)) none none in
      let (rftkn, s') = store_refresh_token conf jwt store fresh user.username none s in
      elim rftkn [
        | err e ↦ (err e, s')
        | ok r ↦ (ok (record { access_token = access_token; refresh_token = some r }), s')
      ]

  -- The access token has the configured expiry.
  unfoldable pub login_handler :
      Kdf
      → Text
      → ℕ
      → Text
      → Option UserLogin
      → Users
      → store.State
      → Result WebError Answer × store.State
  unfolding store_refresh_token
  login_handler kdf salt now fresh body users s = elim (authenticate kdf salt body users) [
    | err e ↦ (err (web_error e), s)
    | ok user ↦
        let encoded = encode conf jwt now (claims_of user) none none none in
        let (rtkn, s') = store_refresh_token conf jwt store fresh user.username none s in
        elim rtkn [
          | err e ↦ (err (web_error e), s')
          | ok r ↦ (ok (tokens 200 (record { access_token = encoded; refresh_token = some r })), s')
        ]
  ]
