-- ===== src/Client/Workflows/Aliases.antt =====
-- The workflows of a state under their aliases.
use labfunctions.Prelude.{
  ◌≡◌, refl, ap, ◌&&◌, ◌||◌, Bool, true, false, not, List, [], ◌∷◌, ◌++◌, Option, arith,
}
use labfunctions.Text.{Text, teq, teq_refl, teq_comm, any, all}
use labfunctions.Dict.{Dict, insert, values}
use labfunctions.Query.{any-append}
use labfunctions.Types.Core.{WorkflowDataWeb}
use labfunctions.Workflows.Web.{has_id}

module _ {V : Type 0} where
  -- Each workflow stands under its own alias.
  abbrev pub by_alias : List (WorkflowDataWeb V) → Dict (WorkflowDataWeb V)
  by_alias [] = []
  by_alias (w ∷ ws) = (w.alias, w) ∷ by_alias ws

  abbrev pub has_alias : Text → List (WorkflowDataWeb V) → Bool
  has_alias a ws = any (λ v. teq v.alias a) ws

  -- No alias stands twice.
  abbrev pub is_distinct : List (WorkflowDataWeb V) → Bool
  is_distinct [] = true
  is_distinct (w ∷ ws) = not (has_alias w.alias ws) && is_distinct ws

  -- No workflow is left without an id.
  abbrev pub all_registered : List (WorkflowDataWeb V) → Bool
  all_registered ws = all (λ w. has_id w.wfid) ws

  pub values-by_alias : (ws : List (WorkflowDataWeb V)) → values (by_alias ws) ≡ ws
  unfolding values
  values-by_alias [] = refl
  values-by_alias (w ∷ ws) = ap (λ x. w ∷ x) (values-by_alias ws)

  abbrev pub named : Option Text → WorkflowDataWeb V → WorkflowDataWeb V
  named wfid w = record w { wfid = wfid }

  -- An id changes no alias.
  has_alias-named :
      (a : Text) (o : Option Text) (w : WorkflowDataWeb V) (ds rest : List (WorkflowDataWeb V))
      → has_alias a (ds ++ named o w ∷ rest) ≡ has_alias a (ds ++ w ∷ rest)
  has_alias-named a o w [] rest = refl
  has_alias-named a o w (d ∷ ds) rest = ap (λ b. teq d.alias a || b) (has_alias-named a o w ds rest)

  pub is_distinct-named :
      (o : Option Text) (w : WorkflowDataWeb V) (ds rest : List (WorkflowDataWeb V))
      → is_distinct (ds ++ named o w ∷ rest) ≡ is_distinct (ds ++ w ∷ rest)
  is_distinct-named o w [] rest = refl
  is_distinct-named o w (d ∷ ds) rest =
      rw (has_alias-named d.alias o w ds rest, is_distinct-named o w ds rest)

  -- An entry that has its place already keeps it.
  pub insert-middle :
      (o : Option Text) (w : WorkflowDataWeb V) (ds rest : List (WorkflowDataWeb V))
      → is_distinct (ds ++ w ∷ rest) ≡ true
      → insert w.alias (named o w) (by_alias (ds ++ w ∷ rest)) ≡ by_alias (ds ++ named o w ∷ rest)
  unfolding insert
  insert-middle o w [] rest once = rw (teq_refl w.alias)
  insert-middle o w (d ∷ ds) rest once =
      let apart : teq d.alias w.alias ≡ false =
        ground
          (arith, any-append (λ v. teq v.alias d.alias) ds (w ∷ rest), teq_comm d.alias w.alias) in
      rw apart (ap (λ x. (d.alias, d) ∷ x) (insert-middle o w ds rest (ground arith)))

  pub all-append :
      (ds es : List (WorkflowDataWeb V))
      → all_registered (ds ++ es) ≡ (all_registered ds && all_registered es)
  all-append [] es = refl
  all-append (d ∷ ds) es = ground (arith, all-append ds es)
