-- ===== src/Security/Scopes/Granted.antt =====
-- What `validate` of labfunctions/security/scopes.py decides, in the words of the scopes themselves.
use labfunctions.Prelude.{
  ◌≡◌, ◌⊎◌, refl, ap, ◌∙◌, ◌↔◌, Bool, true, false, ◌||◌, List, [], ◌∷◌, Option, none, some, arith,
  ltb, Bool-cases, inl, inr,
}
use labfunctions.Text.{Text, codes, select, any, all, member, teq_refl, teq_iff, length}
use labfunctions.Text.Members.{any-witness, any_of_member}
use labfunctions.Dict.{Dict, keys, lookup}
use labfunctions.Security.Scopes.{any_scope, scope2dict, actions_of, matches, validate}
use labfunctions.Security.Scopes.Validate.{IsGranted, covers, validate_perms}
use labfunctions.Security.Scopes.Held.{Holds, lookup-Holds, named_iff}

all-member :
    (q : Text → Bool) (x : Text) (xs : List Text)
    → all q xs ≡ true
    → member x xs ≡ true
    → q x ≡ true
unfolding member
all-member q x [] h k = cc
all-member q x (y ∷ xs) h k = ground (arith, teq_iff x y, all-member q x xs)

member_head : (x : Text) (xs : List Text) → member x (x ∷ xs) ≡ true
unfolding member
member_head x xs = ground (arith, teq_refl x)

member_tail : (x y : Text) (xs : List Text) → member x xs ≡ true → member x (y ∷ xs) ≡ true
unfolding member
member_tail x y xs h = ground arith

all_of_members :
    (q : Text → Bool) (xs : List Text)
    → ((x : Text) → member x xs ≡ true → q x ≡ true)
    → all q xs ≡ true
all_of_members q [] h = refl
all_of_members q (x ∷ xs) h =
    let first = h x (member_head x xs) in
    let rest = all_of_members q xs (λ y m. h y (member_tail y x xs m)) in rw (first, rest)

any-length : (q : Text → Bool) (xs : List Text) → ltb 0 (length (select q xs)) ≡ any q xs
unfolding select
any-length q [] = ground arith
any-length q (x ∷ xs) = ground (arith, any-length q xs)

actions_at :
    (d : Dict (List Text)) (ns : Text) (actions : List Text)
    → lookup ns d ≡ some actions
    → actions_of d ns ≡ actions
unfolding actions_of
actions_at d ns actions e =
    ap (λ (o : Option (List Text)). elim o as (λ x. List Text) [ none ↦ [] | some xs ↦ xs ]) e

-- An action of both lists, or "any" among those that are wanted.
abbrev pub HasAction : List Text → List Text → Type 0
HasAction wanted held =
    ((action : Text) × (member action wanted ≡ true) × (member action held ≡ true))
    ⊎ (member (codes "any") wanted ≡ true)

module _ (r u : Dict (List Text)) (ns : Text) (wanted held : List Text)
    (lr : lookup ns r ≡ some wanted) (lu : lookup ns u ≡ some held) where
  matches_lem : matches r u ns ≡ (any (λ a. member a held) wanted || member (codes "any") wanted)
  unfolding matches
  matches_lem =
      ap (λ w. ltb 0 (length (select (λ a. member a (actions_of u ns)) w)) || member any_scope w)
        (actions_at r ns wanted lr)
      ∙ ap (λ k. ltb 0 (length (select (λ a. member a k) wanted)) || member any_scope wanted)
          (actions_at u ns held lu)
      ∙ ap (λ b. b || member any_scope wanted) (any-length (λ a. member a held) wanted)

  HasAction-matches : matches r u ns ≡ true → HasAction wanted held
  HasAction-matches h = elim (Bool-cases (any (λ a. member a held) wanted)) [
    | inl e ↦ inl (any-witness (λ a. member a held) wanted e)
    | inr e ↦ inr (ground (arith, matches_lem, h, e))
  ]

  matches-HasAction : HasAction wanted held → matches r u ns ≡ true
  matches-HasAction (inl (action, m, k)) =
      let e = any_of_member (λ a. member a held) action wanted m k in
      matches_lem ∙ ground (arith, e)
  matches-HasAction (inr e) = matches_lem ∙ ground (arith, e)

module _ (scopes user_scopes : List Text) where
  -- A namespace for which both lists have a scope, with an action.
  abbrev pub Shared : Type 0
  Shared =
      (ns : Text) × (wanted : List Text) × (held : List Text) × Holds scopes ns wanted
      × Holds user_scopes ns held
      × HasAction wanted held

  -- A namespace for which a scope is required is one of the user's scopes.
  abbrev pub Covered : Type 0
  Covered =
      (ns : Text) (wanted : List Text)
      → Holds scopes ns wanted
      → (held : List Text) × Holds user_scopes ns held

  Shared_iff : ((ns : Text) × IsGranted (scope2dict scopes) (scope2dict user_scopes) ns) ↔ Shared
  Shared_iff = (
    λ (ns, g).
        let (wanted, w) = (named_iff ns scopes).0 g.required_ns in
        let (held, k) = (named_iff ns user_scopes).0 g.user_ns in
        (
          ns,
          wanted,
          held,
          w,
          k,
          HasAction-matches (scope2dict scopes) (scope2dict user_scopes) ns wanted held
              (lookup-Holds ns wanted scopes w) (lookup-Holds ns held user_scopes k) g.action,
        ),
    λ (ns, wanted, held, w, k, common). (
      ns,
      record {
        required_ns = (named_iff ns scopes).1 (wanted, w);
        user_ns = (named_iff ns user_scopes).1 (held, k);
        action =
            matches-HasAction (scope2dict scopes) (scope2dict user_scopes) ns wanted held
              (lookup-Holds ns wanted scopes w) (lookup-Holds ns held user_scopes k) common;
      },
    ),
  )

  Covered_iff : (covers (scope2dict scopes) (scope2dict user_scopes) ≡ true) ↔ Covered
  Covered_iff = (
    λ h ns wanted w. (named_iff ns user_scopes).0 (
        all-member (λ x. member x (keys (scope2dict user_scopes))) ns (keys (scope2dict scopes)) h
          ((named_iff ns scopes).1 (wanted, w))),
    λ h.
        all_of_members (λ x. member x (keys (scope2dict user_scopes))) (keys (scope2dict scopes))
          (λ ns m.
            let (wanted, w) = (named_iff ns scopes).0 m in
            (named_iff ns user_scopes).1 (h ns wanted w)),
  )

-- A scope reads "namespace:action:action", where an empty namespace is "any", and a namespace alone
-- is for the action "any"; of the scopes of one namespace the last one of a list counts. A user
-- passes exactly when, for some namespace, both lists have a scope, with an action in common or with
-- "any" among the required actions, and when, under `require_all`, the user has a scope for each
-- namespace that a required scope is of, or a required scope is of the namespace "any".
pub validate_iff :
    (scopes user_scopes : List Text) (require_all require_all_actions : Bool)
    → (validate scopes user_scopes require_all require_all_actions ≡ true) ↔ (
        ((require_all ≡ false)
          ⊎ Covered scopes user_scopes
          ⊎ ((wanted : List Text) × Holds scopes (codes "any") wanted))
        × Shared scopes user_scopes)
validate_iff scopes user_scopes require_all ra =
    let (to, from) = validate_perms scopes user_scopes require_all ra in
    (
      λ h.
          let (c, g) = to h in
          (
            elim c [
              | inl e ↦ inl e
              | inr (inl e) ↦ inr (inl ((Covered_iff scopes user_scopes).0 e))
              | inr (inr e) ↦ inr (inr ((named_iff (codes "any") scopes).0 e))
            ],
            (Shared_iff scopes user_scopes).0 g,
          ),
      λ (c, g). from (
        elim c [
          | inl e ↦ inl e
          | inr (inl e) ↦ inr (inl ((Covered_iff scopes user_scopes).1 e))
          | inr (inr e) ↦ inr (inr ((named_iff (codes "any") scopes).1 e))
        ],
        (Shared_iff scopes user_scopes).1 g,
      ),
    )
