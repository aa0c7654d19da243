-- ===== src/Security/Scopes/Validate.antt =====
-- What `validate` of labfunctions/security/scopes.py decides.
use labfunctions.Prelude.{
  ◌≡◌, ◌⊎◌, refl, ◌↔◌, Bool, true, false, not, ◌&&◌, ◌||◌, List, [], ◌∷◌, ◌==◌, arith,
}
use labfunctions.Text.{Text, select, any, all, member}
use labfunctions.Text.Members.{length-select-all, any-select, any-witness, any_of_member}
use labfunctions.Dict.{Dict, keys}
use labfunctions.Security.Scopes.{
  any_scope, matches, count_matches, validate_dicts, validate, scope2dict,
}

-- A namespace on both sides with an action in common, or whose required actions hold "any".
pub record IsGranted (required user_perms : Dict (List Text)) (ns : Text) : Type 0 where
  pub required_ns : member ns (keys required) ≡ true
  pub user_ns : member ns (keys user_perms) ≡ true
  pub action : matches required user_perms ns ≡ true

-- Every required namespace is one of the user's.
abbrev pub covers : Dict (List Text) → Dict (List Text) → Bool
covers required user_perms = all (λ ns. member ns (keys user_perms)) (keys required)

module _ (required user_perms : Dict (List Text)) where
  count-any :
      (xs : List Text)
      → not (count_matches required user_perms xs == 0) ≡ any (matches required user_perms) xs
  unfolding count_matches
  count-any [] = refl
  count-any (ns ∷ xs) = ground (arith, count-any xs)

  abbrev granted : Bool
  granted =
      any (λ ns. member ns (keys user_perms) && matches required user_perms ns) (keys required)

  validate_dicts_lem :
      (require_all : Bool)
      → validate_dicts required user_perms require_all ≡ (
          (not require_all || covers required user_perms || member any_scope (keys required))
          && granted)
  unfolding validate_dicts
  validate_dicts_lem require_all =
      rw
        (
          length-select-all,
          count-any (select (λ ns. member ns (keys user_perms)) (keys required)),
          any-select (λ ns. member ns (keys user_perms)) (matches required user_perms)
              (keys required),
        )
        (ground arith)

  granted→ : granted ≡ true → (ns : Text) × IsGranted required user_perms ns
  granted→ h =
      let (ns, m, k) = any-witness _ (keys required) h in
      (ns, record { required_ns = m; user_ns = ground arith; action = ground arith })

  →granted : (ns : Text) → IsGranted required user_perms ns → granted ≡ true
  →granted ns g = any_of_member _ ns (keys required) g.required_ns (rw (g.user_ns, g.action))

-- The same, over the dictionaries of the two lists.
pub validate_perms :
    (scopes user_scopes : List Text) (require_all require_all_actions : Bool)
    → (validate scopes user_scopes require_all require_all_actions ≡ true) ↔ (
        ((require_all ≡ false)
          ⊎ (covers (scope2dict scopes) (scope2dict user_scopes) ≡ true)
          ⊎ (member any_scope (keys (scope2dict scopes)) ≡ true))
        × ((ns : Text) × IsGranted (scope2dict scopes) (scope2dict user_scopes) ns))
unfolding validate
validate_perms scopes user_scopes require_all _ =
    let r = scope2dict scopes in
    let u = scope2dict user_scopes in
    (
      λ h. (
        ground (arith, validate_dicts_lem r u require_all),
        granted→ r u (ground (arith, validate_dicts_lem r u require_all)),
      ),
      λ (c, (ns, g)). ground (arith, validate_dicts_lem r u require_all, →granted r u ns g),
    )
