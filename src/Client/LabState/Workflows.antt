-- ===== src/Client/LabState/Workflows.antt =====
-- The workflows of a state after its operations.
use mathlib.Core.Bool.{false≢true}
use labfunctions.Prelude.{
  ◌≡◌, refl, sym, ◌∙◌, Bool, true, false, List, [], ◌∷◌, Option, none, some, if◌then◌else◌, arith,
  inl, inr, Option-cases,
}
use labfunctions.Text.{Text, teq, teq_refl}
use labfunctions.Dict.{Dict, lookup, insert, remove, lookup-insert, lookup-remove}
use labfunctions.Effects.{ok}
use labfunctions.Types.Core.{WorkflowDataWeb}
use labfunctions.Client.LabState.{
  LabState, same_id, listworkflows_loop, listworkflows2dict, add_workflow, delete_workflow,
  first_with, find_by_id,
}

module _ {W : Type 0} (p : W → Bool) where
  first_with_found : (d : Dict W) (w : W) → first_with p d ≡ some w → p w ≡ true
  unfolding first_with
  first_with_found [] w h = ground arith
  first_with_found ((k, v) ∷ d) w h = ground (arith, first_with_found d w)

  first_with_missing :
      (d : Dict W) (j : Text) (w : W) → first_with p d ≡ none → lookup j d ≡ some w → p w ≡ false
  unfolding first_with lookup
  first_with_missing [] j w h there = ground arith
  first_with_missing ((k, v) ∷ d) j w h there = ground (arith, first_with_missing d j w)

module _ {V : Type 0} where
  -- A workflow that is added is found under its alias, in place of an older one, and can be
  -- deleted; after that its alias is free, and the other aliases are as they were at first.
  pub delete_workflow-add_workflow :
      (wf : WorkflowDataWeb V) (j : Text) (state : LabState V)
      → (lookup j (add_workflow wf state).workflows
          ≡ (if teq wf.alias j then some wf else lookup j state.workflows))
        × ((state' : LabState V) × (delete_workflow wf.alias (add_workflow wf state) ≡ ok state')
            × (lookup j state'.workflows
                ≡ (if teq wf.alias j then none else lookup j state.workflows)))
  unfolding add_workflow delete_workflow
  delete_workflow-add_workflow wf j state =
      let added : lookup wf.alias (insert wf.alias wf state.workflows) ≡ some wf =
        rw (lookup-insert wf.alias wf.alias wf state.workflows)
          (ground (arith, teq_refl wf.alias)) in
      (
        lookup-insert wf.alias j wf state.workflows,
        (
          record state { workflows = remove wf.alias (insert wf.alias wf state.workflows) },
          ground (arith, added),
          rw
              (
                lookup-remove wf.alias j (insert wf.alias wf state.workflows),
                lookup-insert wf.alias j wf state.workflows,
              )
              (ground arith),
        ),
      )

  -- The last workflow with an alias.
  unfoldable pub last_of : Text → List (WorkflowDataWeb V) → Option (WorkflowDataWeb V)
  last_of alias [] = none
  last_of alias (w ∷ ws) = elim (last_of alias ws) [
    | some v ↦ some v
    | none ↦ if teq w.alias alias then some w else none
  ]

  or_old : Option (WorkflowDataWeb V) → Option (WorkflowDataWeb V) → Option (WorkflowDataWeb V)
  or_old none old = old
  or_old (some w) old = some w

  or_old-none : (o : Option (WorkflowDataWeb V)) → or_old o none ≡ o
  unfolding or_old
  or_old-none none = refl
  or_old-none (some w) = refl

  lookup-listworkflows_loop :
      (alias : Text) (ws : List (WorkflowDataWeb V)) (d : Dict (WorkflowDataWeb V))
      → lookup alias (listworkflows_loop ws d) ≡ or_old (last_of alias ws) (lookup alias d)
  unfolding listworkflows_loop last_of or_old
  lookup-listworkflows_loop alias [] d = refl
  lookup-listworkflows_loop alias (w ∷ ws) d = ground (
    arith,
    lookup-listworkflows_loop alias ws (insert w.alias w d),
    lookup-insert w.alias alias w d,
  )

  -- Of the workflows of a list with one alias the dictionary keeps the last.
  pub lookup-listworkflows2dict :
      (alias : Text) (ws : List (WorkflowDataWeb V))
      → lookup alias (listworkflows2dict ws) ≡ last_of alias ws
  unfolding listworkflows2dict lookup
  lookup-listworkflows2dict alias ws =
      lookup-listworkflows_loop alias ws [] ∙ or_old-none (last_of alias ws)

  first_with_total :
      (p : WorkflowDataWeb V → Bool) (d : Dict (WorkflowDataWeb V)) (j : Text)
      (w : WorkflowDataWeb V)
      → lookup j d ≡ some w
      → p w ≡ true
      → (v : WorkflowDataWeb V) × (first_with p d ≡ some v) × (p v ≡ true)
  first_with_total p d j w there h = elim (Option-cases (first_with p d)) [
    | inl e ↦ absurd (false≢true (sym (first_with_missing p d j w e there) ∙ h))
    | inr (v, e) ↦ (v, e, first_with_found p d v e)
  ]

  -- If some alias has a workflow with the id, `find_by_id` gives a workflow, and one with this id.
  pub find_by_id_lem :
      (wfid : Option Text) (state : LabState V) (j : Text) (w : WorkflowDataWeb V)
      → lookup j state.workflows ≡ some w
      → same_id w.wfid wfid ≡ true
      → (v : WorkflowDataWeb V) × (find_by_id wfid state ≡ some v) × (same_id v.wfid wfid ≡ true)
  unfolding find_by_id
  find_by_id_lem wfid state j w there h =
      first_with_total (λ wf. same_id wf.wfid wfid) state.workflows j w there h
