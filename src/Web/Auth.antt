-- ===== src/Web/Auth.antt =====
-- labfunctions/security/auth_bp.py, `refresh_handler`, and the wrapper `protected` of
-- labfunctions/security/web.py: what they answer, and the state of the token store.
use labfunctions.Prelude.{ℕ, Bool, List, Option, none, some, if◌then◌else◌}
use labfunctions.Text.{Text, codes, is_empty}
use labfunctions.Effects.{Result, ok, err}
use labfunctions.Security.Types.{JwtConfig, JwtResponse}
use labfunctions.Security.Store.{TokenStore}
use labfunctions.Security.Auth.{
  Jwt, Payload, AuthError, auth_validation_failed, refresh_token, validate_token,
}

-- What leaves a handler: `MissingAuthorizationHeader` and `WebAuthFailed` have a status of their
-- own, every other exception is an internal error.
pub data WebError : Type 0 where
  missing_authorization_header web_auth_failed internal_error : WebError

-- `except AuthValidationFailed: raise WebAuthFailed()`
abbrev pub web_error : AuthError → WebError
web_error auth_validation_failed = web_auth_failed
web_error _ = internal_error

abbrev pub rescue : {A : Type 0} → Result AuthError A → Result WebError A
rescue (ok a) = ok a
rescue (err e) = err (web_error e)

-- A JSON answer: a message, or the tokens.
pub data Answer : Type 0 where
  message : ℕ → Text → Answer
  tokens : ℕ → JwtResponse → Answer

module _ (conf : JwtConfig) (jwt : Jwt) (store : TokenStore) where
  -- `token` is the bearer token of the header, which `protected` wants; the handler behind it gets
  -- the decoded token.
  unfoldable pub protected :
      {B : Type 0}
      → ℕ
      → List Text
      → Bool
      → Option Text
      → (Payload → Result AuthError B)
      → Result WebError B
  protected now scopes require_all none f = err missing_authorization_header
  protected now scopes require_all (some token) f =
      if is_empty token
      then err missing_authorization_header
      else elim (validate_token conf jwt now token scopes require_all none none) [
        | ok decoded ↦ rescue (f decoded)
        | err e ↦ err (web_error e)
      ]

  -- The body's "refresh_token"; an empty one counts as missing. `at` is the header's token.
  unfoldable pub refresh_handler :
      Bool → ℕ → Text → Text → Option Text → store.State → Result WebError Answer × store.State
  refresh_handler allow_refresh now fresh at rftkn s =
      if allow_refresh
      then elim rftkn [
        | none ↦ (err web_auth_failed, s)
        | some r ↦
            if is_empty r
            then (err web_auth_failed, s)
            else (let (jwt_res, s') = refresh_token conf jwt store now fresh at r s in
                elim jwt_res [
                  | ok res ↦ (ok (tokens 200 res), s')
                  | err e ↦ (err (web_error e), s')
                ])
      ]
      else (ok (message 404 (codes "Not found")), s)
