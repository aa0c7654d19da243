-- ===== src/Client/LabState.antt =====
-- labfunctions/client/labstate.py: the state behind the file of workflows, without the reading and
-- writing of the file.
pub mod Workflows
use labfunctions.Prelude.{◌≡◌, Bool, true, false, List, [], ◌∷◌, Option, none, some, if◌then◌else◌}
use labfunctions.Text.{Text, teq, is_empty}
use labfunctions.Dict.{Dict, lookup, insert, remove}
use labfunctions.Effects.{Result, ok, err}
use labfunctions.Types.Core.{WorkflowDataWeb}
use labfunctions.Types.Projects.{ProjectData}

-- `KeyError`, and the `AttributeError` of a state without a project.
pub data StateError : Type 0 where
  key_error attribute_error : StateError

-- `a == b` for texts that may be missing.
abbrev pub same_id : Option Text → Option Text → Bool
same_id none none = true
same_id none (some _) = false
same_id (some _) none = false
same_id (some a) (some b) = teq a b

-- The loop of `find_by_id`.
unfoldable pub first_with : {W : Type 0} → (W → Bool) → Dict W → Option W
first_with p [] = none
first_with p ((k, w) ∷ d) = if p w then some w else first_with p d

pub record LabState (V : Type 0) : Type 0 where
  pub version : Text
  pub project : Option ProjectData
  pub workflows : Dict (WorkflowDataWeb V)
  pub file : Option Text

module _ {V : Type 0} where
  unfoldable pub projectid : LabState V → Option Text
  projectid state = elim state.project [ none ↦ none | some p ↦ some p.projectid ]

  unfoldable pub set_projectid : Text → LabState V → Result StateError (LabState V)
  set_projectid id state = elim state.project [
    | none ↦ err attribute_error
    | some p ↦ ok (record state { project = some (record p { projectid = id }) })
  ]

  unfoldable pub project_name : LabState V → Option Text
  project_name state = elim state.project [ none ↦ none | some p ↦ some p.name ]

  unfoldable pub listworkflows_loop :
      List (WorkflowDataWeb V) → Dict (WorkflowDataWeb V) → Dict (WorkflowDataWeb V)
  listworkflows_loop [] d = d
  listworkflows_loop (w ∷ ws) d = listworkflows_loop ws (insert w.alias w d)

  unfoldable pub listworkflows2dict : List (WorkflowDataWeb V) → Dict (WorkflowDataWeb V)
  unfolding listworkflows_loop
  listworkflows2dict ws = listworkflows_loop ws []

  unfoldable pub add_workflow : WorkflowDataWeb V → LabState V → LabState V
  add_workflow wf state = record state { workflows = insert wf.alias wf state.workflows }

  unfoldable pub delete_workflow : Text → LabState V → Result StateError (LabState V)
  delete_workflow alias state = elim (lookup alias state.workflows) [
    | none ↦ err key_error
    | some _ ↦ ok (record state { workflows = remove alias state.workflows })
  ]

  unfoldable pub find_by_id : Option Text → LabState V → Option (WorkflowDataWeb V)
  find_by_id wfid state = first_with (λ wf. same_id wf.wfid wfid) state.workflows

  unfoldable pub update_project : ProjectData → LabState V → LabState V
  update_project pd state = record state { project = some pd }
