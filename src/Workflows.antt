-- ===== src/Workflows.antt =====
-- labfunctions/managers/workflows_mg.py: the table of workflows. Its unique keys are the id of a
-- workflow, and its alias within a project. `known` says which ids of projects the database takes:
-- with its foreign keys enforced those of projects that exist, else all. A schedule of `None` is kept as the JSON value null.
mod Tests
pub mod Table
pub mod Jobs
pub mod Web
use labfunctions.Prelude.{
  ℕ, ◌≡◌, Bool, true, false, not, ◌&&◌, ◌||◌, List, [], ◌∷◌, ◌++◌, Option, none, some,
  if◌then◌else◌, map,
}
use labfunctions.Text.{Text, teq, any, select, codes}
use labfunctions.Effects.{Result, ok, err}
use labfunctions.Query.{first, delete_where, update_where}
use labfunctions.Types.Core.{NbTask, ScheduleData, WorkflowDataWeb}

pub record WorkflowModel (V : Type 0) : Type 0 where
  pub wfid : Text
  pub alias : Text
  pub nbtask : NbTask V
  pub schedule : Option ScheduleData
  pub enabled : Bool
  pub project_id : Option Text
  pub updated_at : ℕ

-- `WorkflowRegisterError`, an `IntegrityError` that is not caught, the `TypeError` of
-- `ScheduleData(**None)`, and `ValidationError`.
pub data WorkflowError : Type 0 where
  workflow_register_error integrity_error type_error : WorkflowError

-- A column that may be NULL is compared.
abbrev pub is_value : Text → Option Text → Bool
is_value p none = false
is_value p (some q) = teq q p

abbrev pub same_project : Option Text → Option Text → Bool
same_project none q = false
same_project (some p) q = is_value p q

module _ {V : Type 0} where
  unfoldable pub model2data : WorkflowModel V → Result WorkflowError (WorkflowDataWeb V)
  model2data wm = elim wm.schedule [
    | none ↦ err type_error
    | some schedule ↦ ok (record {
      alias = wm.alias;
      nbtask = wm.nbtask;
      enabled = wm.enabled;
      wfid = some wm.wfid;
      schedule = some schedule;
    })
  ]

  abbrev pub has_wfid : Text → WorkflowModel V → Bool
  has_wfid wfid r = teq r.wfid wfid

  abbrev pub in_project : Text → WorkflowModel V → Bool
  in_project p r = is_value p r.project_id

  abbrev pub is_row : Text → Text → WorkflowModel V → Bool
  is_row p wfid r = in_project p r && has_wfid wfid r

  unfoldable pub get_job_from_db : Text → List (WorkflowModel V) → Option (WorkflowModel V)
  get_job_from_db wfid rows = first (has_wfid wfid) rows

  unfoldable pub get_by_prj_and_wfid_sync :
      Text → Text → List (WorkflowModel V) → Option (WorkflowModel V)
  get_by_prj_and_wfid_sync projectid wfid rows = first (is_row projectid wfid) rows

  abbrev pub shown : Option (WorkflowModel V) → Result WorkflowError (Option (WorkflowDataWeb V))
  shown none = ok none
  shown (some row) = elim (model2data row) [ ok d ↦ ok (some d) | err e ↦ err e ]

  unfoldable pub get_by_wfid_prj :
      Text → Text → List (WorkflowModel V) → Result WorkflowError (Option (WorkflowDataWeb V))
  unfolding model2data
  get_by_wfid_prj projectid wfid rows = shown (first (is_row projectid wfid) rows)

  -- `if project_id:`
  unfoldable pub get_all : Option Text → List (WorkflowModel V) → List (WorkflowModel V)
  get_all none rows = rows
  get_all (some []) rows = rows
  get_all (some (c ∷ p)) rows = select (in_project (c ∷ p)) rows

  unfoldable pub get_by_alias : Text → List (WorkflowModel V) → Option (WorkflowModel V)
  get_by_alias alias rows = first (λ r. teq r.alias alias) rows

  -- Two rows that the unique columns do not let a table hold both: `wfid`, and `alias` with
  -- `project_id`.
  abbrev pub clashes : WorkflowModel V → WorkflowModel V → Bool
  clashes v r = teq r.wfid v.wfid || teq r.alias v.alias && same_project v.project_id r.project_id

  -- The constraint of the database on a table that is rewritten.
  unfoldable pub is_unique : List (WorkflowModel V) → Bool
  is_unique [] = true
  is_unique (r ∷ rows) = not (any (clashes r) rows) && is_unique rows

  -- The constraints of the database on a new row: the foreign key and the unique columns.
  abbrev pub accepts : (Text → Bool) → WorkflowModel V → List (WorkflowModel V) → Bool
  accepts known row rows =
      elim row.project_id [ none ↦ true | some p ↦ known p ] && not (any (clashes row) rows)

  -- `_update`: the values that are set, and the rows where they are.
  abbrev pub assigned : ℕ → WorkflowDataWeb V → WorkflowModel V → WorkflowModel V
  assigned now wfd r = record r {
    nbtask = wfd.nbtask;
    schedule = wfd.schedule;
    alias = wfd.alias;
    enabled = wfd.enabled;
    updated_at = now;
  }

  unfoldable pub update_rows :
      ℕ → Option Text → Text → WorkflowDataWeb V → List (WorkflowModel V) → List (WorkflowModel V)
  update_rows now none projectid wfd rows = rows
  update_rows now (some wfid) projectid wfd rows =
      update_where (has_wfid wfid) (assigned now wfd) rows

  abbrev pub new_row : ℕ → Text → Text → WorkflowDataWeb V → WorkflowModel V
  new_row now wfid projectid wfd = record {
    wfid = wfid;
    alias = wfd.alias;
    nbtask = wfd.nbtask;
    schedule = wfd.schedule;
    enabled = wfd.enabled;
    project_id = some projectid;
    updated_at = now;
  }

  unfoldable pub delete_wf : Text → Text → List (WorkflowModel V) → List (WorkflowModel V)
  delete_wf project_id wfid rows = delete_where (is_row project_id wfid) rows

  module _ (known : Text → Bool) where
    -- `register`; `wfid` is the fresh id of `generate_wfid`. The database refuses a change that
    -- breaks a unique key or names no project, and the rows stay as they were.
    unfoldable pub register :
        ℕ
        → Text
        → Text
        → WorkflowDataWeb V
        → Bool
        → List (WorkflowModel V)
        → Result WorkflowError (Option Text) × List (WorkflowModel V)
    unfolding update_rows is_unique
    register now wfid projectid wfd true rows =
        let rows' = update_rows now wfd.wfid projectid wfd rows in
        if is_unique rows' then (ok wfd.wfid, rows') else (err integrity_error, rows)
    register now wfid projectid wfd false rows =
        let row = new_row now wfid projectid wfd in
        if accepts known row rows
        then (ok (some wfid), rows ++ row ∷ [])
        else (err workflow_register_error, rows)
