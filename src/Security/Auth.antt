-- ===== src/Security/Auth.antt =====
-- labfunctions/security/authentication.py, class `Auth`, with `get_delta` of
-- labfunctions/security/utils.py. The library that signs tokens is the parameter `jwt`, the clock
-- an argument `now` in seconds, and the random token of `generate_token` an argument `fresh`.
pub mod Payload
pub mod Refresh
pub mod Owners
use labfunctions.Prelude.{
  ℕ, zero, suc, ◌+◌, ◌*◌, ◌==◌, ◌≡◌, Bool, true, false, List, [], ◌∷◌, ◌++◌, Option, none, some,
  if◌then◌else◌,
}
use labfunctions.Text.{Text, codes, is_empty, teq}
use labfunctions.Dict.{Dict, lookup, insert}
use labfunctions.Effects.{Result, ok, err, Action, pure, raise, need, ◌>>=◌, ◌>>◌}
use labfunctions.Security.Types.{KeyPairs, JwtConfig, JwtResponse}
use labfunctions.Security.Store.{TokenStore}
use labfunctions.Security.Scopes.{validate}

-- A claim of a token, and the exceptions: `KeyError` for a claim that is missing or of another
-- type, `jwt.InvalidTokenError`, and the class of errors.py.
pub data Claim : Type 0 where
  text : Text → Claim
  texts : List Text → Claim
  stamp : ℕ → Claim

pub data AuthError : Type 0 where
  auth_validation_failed key_error invalid_token : AuthError

abbrev pub Payload : Type 0
Payload = Dict Claim

-- The arguments of `jwt.decode` besides the token.
pub record DecodeOptions : Type 0 where
  pub secret : Option Text
  pub verify_signature : Bool
  pub verify_exp : Bool
  pub required : List Text
  pub aud : Option Text
  pub iss : Option Text
  pub alg : Text

-- The library that signs tokens: `none` is its `InvalidTokenError`.
pub record Jwt : Type 0 where
  pub encode : Payload → Option Text → Text → Text
  pub decode : ℕ → Text → DecodeOptions → Option Payload

-- `a or b` for texts: an empty text counts as missing.
abbrev pub or_text : Option Text → Option Text → Option Text
or_text none b = b
or_text (some a) b = if is_empty a then b else some a

-- `if v: payload.update({k: v})`
abbrev pub update_text : Text → Option Text → Payload → Payload
update_text k none p = p
update_text k (some v) p = if is_empty v then p else insert k (text v) p

unfoldable pub get_delta : ℕ → ℕ → ℕ
get_delta now delta_min = now + 60 * delta_min

-- `if not exp: exp = get_delta(...)`
abbrev pub expiry : ℕ → ℕ → Option ℕ → ℕ
expiry now exp_min none = get_delta now exp_min
expiry now exp_min (some e) = if e == 0 then get_delta now exp_min else e

module _ (conf : JwtConfig) where
  get_secret_encode : Option Text
  get_secret_encode = elim conf.key_pairs [ none ↦ conf.secret | some k ↦ some k.private ]

  get_secret_decode : Option Text
  get_secret_decode = elim conf.key_pairs [ none ↦ conf.secret | some k ↦ some k.public ]

  pub build_payload : ℕ → Payload → Option ℕ → Option Text → Option Text → Payload
  unfolding get_delta
  build_payload now payload exp iss aud =
      insert (codes "exp") (stamp (expiry now conf.exp_min exp)) (
        update_text (codes "aud") (or_text aud conf.audience)
          (update_text (codes "iss") (or_text iss conf.issuer) payload))

module _ (conf : JwtConfig) (jwt : Jwt) where
  unfoldable pub encode : ℕ → Payload → Option ℕ → Option Text → Option Text → Text
  unfolding get_secret_encode build_payload
  encode now payload exp iss aud =
      jwt.encode (build_payload conf now payload exp iss aud) (get_secret_encode conf) conf.alg

  unfoldable pub decode : ℕ → Text → Bool → Bool → Option Text → Option Text → Option Payload
  unfolding get_secret_decode
  decode now encoded verify_signature verify_exp iss aud = jwt.decode now encoded (record {
    secret = get_secret_decode conf;
    verify_signature = verify_signature;
    verify_exp = verify_exp;
    required = conf.requires_claims;
    aud = or_text aud conf.audience;
    iss = or_text iss conf.issuer;
    alg = conf.alg;
  })

  -- `decoded["usr"]`, a text.
  abbrev pub usr_of : Payload → Option Text
  usr_of p = elim (lookup (codes "usr") p) [ some (text u) ↦ some u | _ ↦ none ]

  abbrev scopes_of : Payload → Option (List Text)
  scopes_of p = elim (lookup (codes "scopes") p) [ some (texts l) ↦ some l | _ ↦ none ]

  -- `if required_scopes:` holds for a list with an element.
  abbrev check_scopes : List Text → Bool → Payload → Result AuthError Payload
  check_scopes [] require_all decoded = ok decoded
  check_scopes (r ∷ rs) require_all decoded = elim (scopes_of decoded) [
    | none ↦ err key_error
    | some user_scopes ↦
        if validate (r ∷ rs) user_scopes require_all true
        then ok decoded
        else err auth_validation_failed
  ]

  -- A missing list of required scopes is the empty one. The handler turns the library's error into
  -- the program's; a missing "scopes" claim raises `KeyError`, which it does not catch.
  unfoldable pub validate_token :
      ℕ → Text → List Text → Bool → Option Text → Option Text → Result AuthError Payload
  unfolding decode
  validate_token now token required_scopes require_all iss aud =
      elim (decode now token true true iss aud) [
        | none ↦ err auth_validation_failed
        | some decoded ↦ check_scopes required_scopes require_all decoded
      ]

  module _ (store : TokenStore) where
    -- f"{username}.{refresh}"
    abbrev pub token_key : Text → Text → Text
    token_key username refresh = username ++ b'.' ∷ refresh

    -- `ttl = ttl or self.conf.ttl_refresh_token`
    abbrev or_ttl : Option ℕ → ℕ
    or_ttl none = conf.ttl_refresh_token
    or_ttl (some t) = if t == 0 then conf.ttl_refresh_token else t

    unfoldable pub store_refresh_token : Text → Text → Option ℕ → Action store.State AuthError Text
    store_refresh_token fresh username ttl s =
        (ok fresh, store.put s (token_key username fresh) username (some (or_ttl ttl)))

    abbrev equals_text : Text → Option Text → Bool
    equals_text usr none = false
    equals_text usr (some v) = teq usr v

    unfoldable pub validate_refresh_token : ℕ → Text → Text → Action store.State AuthError Bool
    unfolding decode
    validate_refresh_token now access_token refresh_token = do
      decoded ← need invalid_token (decode now access_token true false none none)
      usr ← need key_error (usr_of decoded)
      λ s. (ok (equals_text usr (store.get s (token_key usr refresh_token))), s)

    unfoldable pub refresh_token : ℕ → Text → Text → Text → Action store.State AuthError JwtResponse
    unfolding decode encode store_refresh_token validate_refresh_token
    refresh_token now fresh access_token refresh = do
      is_valid ← validate_refresh_token now access_token refresh
      if is_valid
          then (do
            decoded ← need invalid_token (decode now access_token true false none none)
            usr ← need key_error (usr_of decoded)
            (λ s. (ok tt, store.delete s (token_key usr refresh)))
            new_refresh ← store_refresh_token fresh usr none
            pure (record {
              access_token = encode now decoded none none none;
              refresh_token = some new_refresh;
            }))
          else raise auth_validation_failed
