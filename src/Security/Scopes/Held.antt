-- ===== src/Security/Scopes/Held.antt =====
-- The scopes of labfunctions/security/scopes.py in their own words: what a scope says, and which
-- scope of a list counts for a namespace.
use labfunctions.Prelude.{
  ◌≡◌, ◌≢◌, ◌⊎◌, refl, sym, ap, ◌∙◌, ◌↔◌, Bool, true, false, List, [], ◌∷◌, ◌++◌, ◌==◌, Option,
  none, some, arith, if◌then◌else◌, Bool-cases, inl, inr,
}
use labfunctions.Text.{
  Text, codes, member, teq, teq_refl, teq_iff, eq_of_teq, teq-false, has_char, is_empty,
}
use labfunctions.Text.Split.{split_all, split_once-append, split_once-none}
use labfunctions.Dict.{Dict, keys, lookup, insert, found, lookup-insert, member-keys}
use labfunctions.Security.Scopes.{colon, scope_entry, scope_loop, scope2dict}

-- What a scope says: "namespace:action:action", where the namespace may be empty and then stands for
-- "any", or a namespace alone, which is for the action "any".
pub data Reads : Text → Text → List Text → Type 0 where
  with_actions :
      (ns actions : Text)
      → has_char colon ns ≡ false
      → is_empty ns ≡ false
      → Reads (ns ++ colon ∷ actions) ns (split_all colon actions)
  without_namespace :
      (actions : Text) → Reads (colon ∷ actions) (codes "any") (split_all colon actions)
  without_actions :
      (ns : Text) → has_char colon ns ≡ false → is_empty ns ≡ false → Reads ns ns (codes "any" ∷ [])
  empty_scope : Reads [] (codes "any") (codes "any" ∷ [])

-- No scope of a list is of a namespace.
pub data Lacks : List Text → Text → Type 0 where
  no_scopes : {ns : Text} → Lacks [] ns
  other_scope :
      {s ns other : Text} {actions : List Text} {ss : List Text}
      → Reads s other actions
      → other ≢ ns
      → Lacks ss ns
      → Lacks (s ∷ ss) ns

-- The last scope of a namespace in a list, with its actions.
pub data Holds : List Text → Text → List Text → Type 0 where
  last_scope :
      {s ns : Text} {actions : List Text} {ss : List Text}
      → Reads s ns actions
      → Lacks ss ns
      → Holds (s ∷ ss) ns actions
  earlier_scope :
      {s ns : Text} {actions : List Text} {ss : List Text}
      → Holds ss ns actions
      → Holds (s ∷ ss) ns actions

entry_of : {s ns : Text} {actions : List Text} → Reads s ns actions → scope_entry s ≡ (ns, actions)
unfolding scope_entry has_char split_all
entry_of (with_actions ns actions h k) = ground (arith, split_once-append colon ns actions h)
entry_of (without_namespace actions) = ground (arith, split_once-append colon [] actions refl)
entry_of (without_actions ns h k) = ground (arith, split_once-none colon ns h)
entry_of empty_scope = ground (arith, split_once-none colon [] refl)

-- A text with its first colon, if it has one.
colon_in :
    (s : Text)
    → (has_char colon s ≡ false)
      ⊎ ((a b : Text) × (s ≡ a ++ colon ∷ b) × (has_char colon a ≡ false))
unfolding has_char
colon_in [] = inl refl
colon_in (c ∷ s) = elim (Bool-cases (c == colon)) [
  | inl e ↦ inr ([], s, ground arith, refl)
  | inr e ↦ elim (colon_in s) [
    | inl clear ↦ inl (ground arith)
    | inr (a, b, same, clear) ↦ inr (c ∷ a, b, ap (λ t. c ∷ t) same, ground arith)
  ]
]

-- Every scope says something.
reading_at :
    (a b : Text)
    → has_char colon a ≡ false
    → (ns : Text) × (actions : List Text) × Reads (a ++ colon ∷ b) ns actions
reading_at [] b h = (codes "any", split_all colon b, without_namespace b)
reading_at (c ∷ a) b h = (c ∷ a, split_all colon b, with_actions (c ∷ a) b h refl)

reading_clear :
    (s : Text) → has_char colon s ≡ false → (ns : Text) × (actions : List Text) × Reads s ns actions
reading_clear [] h = (codes "any", codes "any" ∷ [], empty_scope)
reading_clear (c ∷ s) h = (c ∷ s, codes "any" ∷ [], without_actions (c ∷ s) h refl)

reading_of : (s : Text) → (ns : Text) × (actions : List Text) × Reads s ns actions
reading_of s = elim (colon_in s) [
  | inl clear ↦ reading_clear s clear
  | inr (a, b, same, clear) ↦ rw same (reading_at a b clear)
]

-- The actions of a namespace after the scopes of a list.
abbrev last_entry : Text → List Text → Option (List Text) → Option (List Text)
last_entry ns [] o = o
last_entry ns (s ∷ ss) o =
    last_entry ns ss (if teq (scope_entry s).0 ns then some (scope_entry s).1 else o)

lookup-scope_loop :
    (ns : Text) (ss : List Text) (d : Dict (List Text))
    → lookup ns (scope_loop d ss) ≡ last_entry ns ss (lookup ns d)
unfolding scope_loop
lookup-scope_loop ns [] d = refl
lookup-scope_loop ns (s ∷ ss) d =
    lookup-scope_loop ns ss (insert (scope_entry s).0 (scope_entry s).1 d)
    ∙ ap (last_entry ns ss) (lookup-insert (scope_entry s).0 ns (scope_entry s).1 d)

last_entry-Lacks :
    (ns : Text) (ss : List Text) (o : Option (List Text)) → Lacks ss ns → last_entry ns ss o ≡ o
last_entry-Lacks ns [] o no_scopes = refl
last_entry-Lacks ns (s ∷ ss) o (other_scope {other = other} reads differ rest) =
    ap (λ e. last_entry ns ss (if teq e.0 ns then some e.1 else o)) (entry_of reads)
    ∙ rw (teq-false other ns differ) (last_entry-Lacks ns ss o rest)

last_entry-Holds :
    (ns : Text) (actions : List Text) (ss : List Text) (o : Option (List Text))
    → Holds ss ns actions
    → last_entry ns ss o ≡ some actions
last_entry-Holds ns actions [] o holds = elim holds [ ]
last_entry-Holds ns actions (s ∷ ss) o (last_scope reads rest) =
    ap (λ e. last_entry ns ss (if teq e.0 ns then some e.1 else o)) (entry_of reads)
    ∙ rw (teq_refl ns) (last_entry-Lacks ns ss (some actions) rest)
last_entry-Holds ns actions (s ∷ ss) o (earlier_scope rest) = last_entry-Holds ns actions ss _ rest

moved : (s a b : Text) (xs ys : List Text) → a ≡ b → xs ≡ ys → Reads s a xs → Reads s b ys
moved s a b xs ys p q reads = rw (← p, ← q) reads

differ_of : (a b : Text) → teq a b ≡ false → a ≢ b
differ_of a b h q = let k = (teq_iff a b).1 q in cc

same_entry :
    (b : Bool) (x y : List Text) (o : Option (List Text))
    → b ≡ true
    → (if b then some x else o) ≡ some y
    → x ≡ y
same_entry true x y o h k = cc
same_entry false x y o h k = cc

-- The last entry of a namespace is that of a scope, unless no scope is of it.
add_scope :
    (ns s other : Text) (actions entry : List Text) (ss : List Text) (o : Option (List Text))
    → Reads s other entry
    → Holds ss ns actions
      ⊎ (Lacks ss ns × ((if teq other ns then some entry else o) ≡ some actions))
    → Holds (s ∷ ss) ns actions ⊎ (Lacks (s ∷ ss) ns × (o ≡ some actions))
add_scope ns s other actions entry ss o reads (inl holds) = inl (earlier_scope holds)
add_scope ns s other actions entry ss o reads (inr (lacks, e)) = elim (Bool-cases (teq other ns)) [
  | inl same ↦ inl (
      last_scope
        (moved s other ns entry actions (eq_of_teq other ns same)
          (same_entry (teq other ns) entry actions o same e) reads)
        lacks)
  | inr differ ↦
      inr (other_scope reads (differ_of other ns differ) lacks, ground (arith, e, differ))
]

Holds-last_entry :
    (ns : Text) (actions : List Text) (ss : List Text) (o : Option (List Text))
    → last_entry ns ss o ≡ some actions
    → Holds ss ns actions ⊎ (Lacks ss ns × (o ≡ some actions))
Holds-last_entry ns actions [] o e = inr (no_scopes, e)
Holds-last_entry ns actions (s ∷ ss) o e =
    let (other, entry, reads) = reading_of s in
    add_scope ns s other actions entry ss o reads (
      Holds-last_entry ns actions ss (if teq other ns then some entry else o) (
        sym (ap (λ p. last_entry ns ss (if teq p.0 ns then some p.1 else o)) (entry_of reads)) ∙ e))

-- The dictionary of a list has for each namespace the actions of its last scope.
lookup-scope2dict : (ns : Text) (ss : List Text) → lookup ns (scope2dict ss) ≡ last_entry ns ss none
unfolding scope2dict lookup
lookup-scope2dict ns ss = lookup-scope_loop ns ss []

pub lookup-Holds :
    (ns : Text) (actions ss : List Text)
    → Holds ss ns actions
    → lookup ns (scope2dict ss) ≡ some actions
lookup-Holds ns actions ss holds =
    lookup-scope2dict ns ss ∙ last_entry-Holds ns actions ss none holds

pub Holds-lookup :
    (ns : Text) (actions ss : List Text)
    → lookup ns (scope2dict ss) ≡ some actions
    → Holds ss ns actions
Holds-lookup ns actions ss e =
    elim (Holds-last_entry ns actions ss none (sym (lookup-scope2dict ns ss) ∙ e)) [
      | inl holds ↦ holds
      | inr (lacks, k) ↦ cc
    ]

pub some_of : (o : Option (List Text)) → found o ≡ true → (actions : List Text) × (o ≡ some actions)
some_of none h = cc
some_of (some actions) h = (actions, refl)

-- A namespace of the dictionary is one that a scope of the list is of.
pub named_iff :
    (ns : Text) (ss : List Text)
    → (member ns (keys (scope2dict ss)) ≡ true) ↔ ((actions : List Text) × Holds ss ns actions)
named_iff ns ss = (
  λ h.
      let (actions, e) =
        some_of (lookup ns (scope2dict ss)) (sym (member-keys ns (scope2dict ss)) ∙ h) in
      (actions, Holds-lookup ns actions ss e),
  λ (actions, holds). member-keys ns (scope2dict ss) ∙ ap found (lookup-Holds ns actions ss holds),
)
