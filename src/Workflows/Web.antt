-- ===== src/Workflows/Web.antt =====
-- The handlers of labfunctions/web/workflows_bp.py. A handler has the table of workflows, the calls
-- of the scheduler of periodic jobs and the jobs that are put on queues, and answers with a status;
-- a status of 500 is that of an exception that nothing catches, which rolls the session back.
pub mod Answers
use labfunctions.Prelude.{
  ℕ, List, [], ◌∷◌, ◌++◌, Option, none, some, Bool, true, false, if◌then◌else◌,
}
use labfunctions.Text.{Text, codes, is_empty}
use labfunctions.Effects.{Result, ok, err}
use labfunctions.Types.Core.{NbTask, ExecutionNbTask, ScheduleData, WorkflowDataWeb}
use labfunctions.Types.Runtimes.{RuntimeData}
use labfunctions.Notebooks.Context.{Surroundings}
use labfunctions.Scheduler.{Job, enqueue_notebook, enqueue_workflow}
use labfunctions.Workflows.{
  WorkflowModel, WorkflowError, workflow_register_error, register, get_all, get_by_wfid_prj,
  delete_wf,
}
use labfunctions.Workflows.Jobs.{Call, register_workflow, unregister_workflow}

pub record Server (V : Type 0) : Type 0 where
  pub rows : List (WorkflowModel V)
  pub calls : List (Call V)
  pub jobs : List (Job V)

pub data Answer (V : Type 0) : Type 0 where
  failed : ℕ → Answer V
  done : Answer V
  with_wfid : ℕ → Option Text → Answer V
  with_rows : List (WorkflowModel V) → Answer V
  with_workflow : WorkflowDataWeb V → Answer V
  with_context : ExecutionNbTask V → Answer V

abbrev pub has_id : Option Text → Bool
has_id none = false
has_id (some []) = false
has_id (some (_ ∷ _)) = true

module _ {V : Type 0} where
  unfoldable pub workflows_list : Text → Server V → Answer V
  workflows_list projectid s = with_rows (get_all (some projectid) s.rows)

  unfoldable pub workflow_delete : Text → Text → Server V → Answer V × Server V
  workflow_delete projectid wfid s = (
    done,
    record s {
      rows = delete_wf projectid wfid s.rows;
      calls = unregister_workflow (some wfid) true s.calls;
    },
  )

  abbrev pub got : Result WorkflowError (Option (WorkflowDataWeb V)) → Answer V
  got (ok none) = failed 404
  got (ok (some wd)) = with_workflow wd
  got (err _) = failed 500

  unfoldable pub workflow_get : Text → Text → Server V → Answer V
  workflow_get projectid wfid s = got (get_by_wfid_prj projectid wfid s.rows)

module _ {V : Type 0} (env : Surroundings V) (known : Text → Bool)
    (get_runtime : Text → Text → Option Text → Option (RuntimeData V)) where
  -- `none` is a body that `NBTask` does not accept.
  unfoldable pub notebooks_run : Text → Text → Option (NbTask V) → Server V → Answer V × Server V
  notebooks_run random projectid none s = (failed 400, s)
  notebooks_run random projectid (some task) s =
      let (ctx, jobs) = enqueue_notebook env get_runtime random projectid task none s.jobs in
      (with_context ctx, record s { jobs = jobs })

  -- `if wfd.schedule: await job_manager.register_workflow(...)`
  abbrev pub scheduled : Text → Text → WorkflowDataWeb V → List (Call V) → List (Call V)
  scheduled random projectid wfd calls = elim wfd.schedule [
    | none ↦ calls
    | some schedule ↦ register_workflow env get_runtime random projectid wfd schedule calls
  ]

  abbrev pub created :
      Text
      → Text
      → WorkflowDataWeb V
      → Server V
      → Result WorkflowError (Option Text) × List (WorkflowModel V)
      → Answer V × Server V
  created random projectid wfd s (ok wfid, rows) = (
    with_wfid 201 wfid,
    record s {
      rows = rows;
      calls = scheduled random projectid (record wfd { wfid = wfid }) s.calls;
    },
  )
  created random projectid wfd s (err workflow_register_error, rows) = (failed 200, s)
  created random projectid wfd s (err _, rows) = (failed 500, s)

  -- `fresh` is the id that `register` makes.
  unfoldable pub workflow_create :
      ℕ → Text → Text → Text → Option (WorkflowDataWeb V) → Server V → Answer V × Server V
  workflow_create now fresh random projectid none s = (failed 400, s)
  workflow_create now fresh random projectid (some wfd) s =
      created random projectid wfd s (register known now fresh projectid wfd false s.rows)

  abbrev pub updated :
      Text
      → Text
      → WorkflowDataWeb V
      → Server V
      → Result WorkflowError (Option Text) × List (WorkflowModel V)
      → Answer V × Server V
  updated random projectid wfd s (ok wfid, rows) =
      (with_wfid 201 wfid, record s { rows = rows; calls = scheduled random projectid wfd s.calls })
  updated random projectid wfd s (err workflow_register_error, rows) = (failed 503, s)
  updated random projectid wfd s (err _, rows) = (failed 500, s)

  unfoldable pub workflow_update :
      ℕ → Text → Text → Text → Option (WorkflowDataWeb V) → Server V → Answer V × Server V
  workflow_update now fresh random projectid none s = (failed 400, s)
  workflow_update now fresh random projectid (some wfd) s =
      if has_id wfd.wfid
      then updated random projectid wfd s (register known now fresh projectid wfd true s.rows)
      else (failed 400, s)

  abbrev pub enqueued : Server V → Option (ExecutionNbTask V) × List (Job V) → Answer V × Server V
  enqueued s (none, jobs) = (failed 404, record s { jobs = jobs })
  enqueued s (some ctx, jobs) = (with_context ctx, record s { jobs = jobs })

  abbrev pub run_of :
      Text
      → Text
      → Text
      → Server V
      → Result WorkflowError (Option (WorkflowDataWeb V))
      → Answer V × Server V
  run_of random projectid wfid s (ok o) =
      enqueued s (enqueue_workflow env get_runtime (λ _ _. o) random projectid wfid s.jobs)
  run_of random projectid wfid s (err _) = (failed 500, s)

  unfoldable pub workflow_enqueue : Text → Text → Text → Server V → Answer V × Server V
  workflow_enqueue random projectid wfid s =
      run_of random projectid wfid s (get_by_wfid_prj projectid wfid s.rows)
