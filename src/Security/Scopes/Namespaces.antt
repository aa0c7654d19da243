-- ===== src/Security/Scopes/Namespaces.antt =====
-- How the dictionary of labfunctions/security/scopes.py is filled, and what follows for a list
-- that names one namespace twice or asks for an action in each of two namespaces.
use labfunctions.Prelude.{
  ◌≡◌, ◌≢◌, refl, Bool, true, false, List, [], ◌∷◌, ◌++◌, ℕ, ◌==◌, some, arith, if◌then◌else◌,
  Bool-cases, inl, inr,
}
use labfunctions.Text.{Text, has_char, is_empty, select, member, teq, teq_refl, teq-false}
use labfunctions.Text.Split.{split_all, split_once-append}
use labfunctions.Dict.{Dict, lookup, insert, keys, lookup-insert}
use labfunctions.Security.Scopes.{colon, scope_entry, scope_loop, scope2dict, matches, validate}
use labfunctions.Security.Scopes.Validate.{validate_perms}

-- A scope "ns:actions".
abbrev pub scope : Text → Text → Text
scope ns actions = ns ++ colon ∷ actions

scope_entry-scope :
    (ns actions : Text)
    → has_char colon ns ≡ false
    → is_empty ns ≡ false
    → scope_entry (scope ns actions) ≡ (ns, split_all colon actions)
unfolding scope_entry
scope_entry-scope ns actions h k = ground (arith, split_once-append colon ns actions h)

scope_loop-append :
    (d : Dict (List Text)) (xs : List Text) (s : Text)
    → scope_loop d (xs ++ s ∷ []) ≡ insert (scope_entry s).0 (scope_entry s).1 (scope_loop d xs)
unfolding scope_loop
scope_loop-append d [] s = refl
scope_loop-append d (x ∷ xs) s =
    scope_loop-append (insert (scope_entry x).0 (scope_entry x).1 d) xs s

scope2dict-append :
    (xs : List Text) (s : Text)
    → scope2dict (xs ++ s ∷ []) ≡ insert (scope_entry s).0 (scope_entry s).1 (scope2dict xs)
unfolding scope2dict
scope2dict-append xs s = scope_loop-append [] xs s

-- A later scope replaces all actions that the earlier scopes of its namespace gave, and leaves the
-- other namespaces as they are.
pub lookup-scope2dict-append :
    (xs : List Text) (ns actions : Text) (other : Text)
    → has_char colon ns ≡ false
    → is_empty ns ≡ false
    → lookup other (scope2dict (xs ++ scope ns actions ∷ []))
      ≡ (if teq ns other then some (split_all colon actions) else lookup other (scope2dict xs))
lookup-scope2dict-append xs ns actions other h k =
    rw (scope2dict-append xs (scope ns actions), scope_entry-scope ns actions h k)
      (lookup-insert ns other (split_all colon actions) (scope2dict xs))

split_all-cons : (c : ℕ) (s : Text) → (w : Text) × (ws : List Text) × (split_all c s ≡ w ∷ ws)
unfolding split_all
split_all-cons c [] = ([], [], refl)
split_all-cons c (d ∷ s) = elim (Bool-cases (d == c)) [
  | inl e ↦ ([], split_all c s, rw e)
  | inr e ↦ let (w, ws, q) = split_all-cons c s in (d ∷ w, ws, rw (e, q))
]

-- A namespace whose first wanted action the user has adds to the count.
matches_first :
    (r u : Dict (List Text)) (ns w : Text) (ws us : List Text)
    → lookup ns r ≡ some (w ∷ ws)
    → lookup ns u ≡ some (w ∷ us)
    → matches r u ns ≡ true
unfolding matches select member
matches_first r u ns w ws us h k = ground (arith, teq_refl w)

scope2dict-nil : scope2dict [] ≡ []
unfolding scope2dict
scope2dict-nil = refl

-- Two scopes of two namespaces.
module _ (ns ns' : Text) (clear : has_char colon ns ≡ false) (clear' : has_char colon ns' ≡ false)
    (named : is_empty ns ≡ false) (named' : is_empty ns' ≡ false) (differ : ns ≢ ns') where
  scope2dict-two :
      (a b : Text)
      → scope2dict (scope ns a ∷ scope ns' b ∷ [])
        ≡ (ns, split_all colon a) ∷ (ns', split_all colon b) ∷ []
  unfolding insert
  scope2dict-two a b = rw (
    scope2dict-append (scope ns a ∷ []) (scope ns' b),
    scope2dict-append [] (scope ns a),
    scope2dict-nil,
    scope_entry-scope ns a clear named,
    scope_entry-scope ns' b clear' named',
    teq-false ns ns' differ,
  )

  -- Under `require_all`, a user who holds the actions asked for in one namespace passes, whatever
  -- actions it has in the other namespace.
  pub validate-two :
      (a b b' : Text) (require_all_actions : Bool)
      → validate
          (scope ns a ∷ scope ns' b ∷ [])
          (scope ns a ∷ scope ns' b' ∷ [])
          true
          require_all_actions
        ≡ true
  unfolding member keys lookup
  validate-two a b b' ra =
      let (w, ws, q) = split_all-cons colon a in
      (validate_perms _ _ true ra).1 (
        rw (scope2dict-two a b, scope2dict-two a b')
          (
            inr (inl (ground (arith, teq_refl ns, teq_refl ns'))),
            (
              ns,
              record {
                required_ns = ground (arith, teq_refl ns);
                user_ns = ground (arith, teq_refl ns);
                action =
                    matches_first _ _ ns w ws ws (ground (arith, teq_refl ns))
                      (ground (arith, teq_refl ns));
              },
            ),
          ))
