-- ===== src/Security/Scopes.antt =====
-- labfunctions/security/scopes.py: scopes such as "admin:r:w" as a dictionary from a namespace to
-- a set of actions, and the test of a user's scopes against the required ones.
pub mod Validate
pub mod Namespaces
pub mod Held
pub mod Granted
use labfunctions.Prelude.{
  Bool, true, false, not, ◌&&◌, ◌||◌, List, [], ◌∷◌, Option, none, some, ◌==◌, ltb, ◌+◌, ℕ,
  if◌then◌else◌,
}
use labfunctions.Text.{Text, codes, length, select, any, is_empty, member}
use labfunctions.Text.Split.{split_once, split_all}
use labfunctions.Dict.{Dict, lookup, insert, keys}

abbrev pub any_scope : Text
any_scope = codes "any"

abbrev pub colon : ℕ
colon = b':'

-- The pair that the `try` block binds: `ns, action = s.split(":", maxsplit=1)`, or the handler's.
split_scope : Text → Text × Text
split_scope s = elim (split_once colon s) [ none ↦ (s, any_scope) | some p ↦ p ]

-- A set is a list that only `member` reads.
pub scope_entry : Text → Text × List Text
unfolding split_scope
scope_entry s =
    let (ns, action) = split_scope s in
    (if is_empty ns then any_scope else ns, split_all colon action)

scope_loop : Dict (List Text) → List Text → Dict (List Text)
scope_loop permissions [] = permissions
scope_loop permissions (s ∷ scopes) =
    let (ns, actions) = scope_entry s in scope_loop (insert ns actions permissions) scopes

unfoldable pub scope2dict : List Text → Dict (List Text)
unfolding scope_loop scope_entry
scope2dict = scope_loop []

-- In Python a set is never equal to the number 0.
abbrev equals_zero : List Text → Bool
equals_zero intersection = false

actions_of : Dict (List Text) → Text → List Text
actions_of perms ns = elim (lookup ns perms) [ none ↦ [] | some actions ↦ actions ]

-- One round of the last loop: whether the namespace adds to `_match`.
pub matches : Dict (List Text) → Dict (List Text) → Text → Bool
unfolding actions_of
matches required user_perms ns =
    let wanted = actions_of required ns in
    let actions_matched = select (λ a. member a (actions_of user_perms ns)) wanted in
    ltb 0 (length actions_matched) || member any_scope wanted

count_matches : Dict (List Text) → Dict (List Text) → List Text → ℕ
count_matches required user_perms [] = 0
count_matches required user_perms (ns ∷ intersection) =
    (if matches required user_perms ns then 1 else 0)
    + count_matches required user_perms intersection

-- The body of `validate` behind the two calls of `scope2dict`.
validate_dicts : Dict (List Text) → Dict (List Text) → Bool → Bool
unfolding count_matches matches
validate_dicts required user_perms require_all =
    let required_names = keys required in
    let intersection = select (λ ns. member ns (keys user_perms)) required_names in
    let rest = not (count_matches required user_perms intersection == 0) in
    let free = member any_scope required_names in
    if require_all
    then (if not (length required_names == length intersection) && not free then false else rest)
    else if equals_zero intersection && not free
    then false
    else rest

-- `require_all_actions` is accepted and not read, as in the source.
unfoldable pub validate : List Text → List Text → Bool → Bool → Bool
unfolding validate_dicts scope2dict
validate scopes user_scopes require_all require_all_actions =
    validate_dicts (scope2dict scopes) (scope2dict user_scopes) require_all
