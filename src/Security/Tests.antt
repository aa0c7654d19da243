-- ===== src/Security/Tests.antt =====
-- Runs of the scopes and of the tokens.
use labfunctions.Prelude.{◌≡◌, ◌⊎◌, ◌↔◌, refl, true, false, List, [], ◌∷◌}
use labfunctions.Text.{Text, codes, select, teq, member}
use labfunctions.Text.Split.{split_once, split_all}
use labfunctions.Dict.{lookup, insert, keys}
use labfunctions.Effects.{ok, err}
use labfunctions.Security.Scopes.{validate}
use labfunctions.Security.Scopes.Held.{Holds}
use labfunctions.Security.Scopes.Granted.{Covered, Shared, validate_iff}
use labfunctions.Security.Store.Refines.{memory_store}
use labfunctions.Security.Auth.{auth_validation_failed, validate_refresh_token, refresh_token}
use labfunctions.Security.Auth.Refresh.{refresh_token-once}
use labfunctions.Security.Samples.{
  differ, name_jwt, conf, ana, ana_payload, ana-Identifies, one_token, next_tokens, renewed,
  refreshed,
}

abbrev wanted : List Text
wanted = codes "admin:r:w" ∷ codes "agent:read" ∷ []

abbrev held : List Text
held = codes "agent:read" ∷ codes "user:any" ∷ []

some_scope : validate wanted held false false ≡ true
unfolding validate select keys insert teq split_once member lookup split_all
some_scope = refl

not_all_scopes : validate wanted held true false ≡ false
unfolding validate select keys insert teq split_once member split_all
not_all_scopes = refl

validate_iff_example : (validate wanted held true false ≡ true) ↔ (
    ((true ≡ false)
      ⊎ Covered wanted held
      ⊎ ((actions : List Text) × Holds wanted (codes "any") actions))
    × Shared wanted held)
validate_iff_example = validate_iff wanted held true false

refresh_token-once_example :
    (refresh_token conf name_jwt memory_store 5
        (codes "r3")
        ana
        (codes "r1")
        (next_tokens (codes "r2"))
      ≡ (err auth_validation_failed, next_tokens (codes "r2")))
    × (validate_refresh_token conf name_jwt memory_store 5 ana
          (codes "r2")
          (next_tokens (codes "r2"))
        ≡ (ok true, next_tokens (codes "r2")))
refresh_token-once_example =
    refresh_token-once conf name_jwt memory_store 5 5 ana ana (codes "r2") (codes "r3") (codes "r1")
      ana ana_payload ana_payload one_token (next_tokens (codes "r2")) (renewed (codes "r2"))
      ana-Identifies ana-Identifies (differ _ _ (unfold teq in refl)) (refreshed (codes "r2"))
