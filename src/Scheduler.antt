-- ===== src/Scheduler.antt =====
-- labfunctions/control/scheduler.py: the contexts and the jobs that are put on queues. The jobs are
-- a list, in the order in which they were put there; runtimes and workflows come from the database,
-- and are the parameters `get_runtime` and `get_workflow`.
pub mod Older
use labfunctions.Prelude.{ℕ, List, [], ◌∷◌, ◌++◌, Option, none, some, if◌then◌else◌}
use labfunctions.Text.{Text, codes, is_empty}
use labfunctions.Types.Core.{NbTask, ExecutionNbTask, WorkflowDataWeb}
use labfunctions.Types.Runtimes.{RuntimeData}
use labfunctions.Ident.ExecId.{exec_id}
use labfunctions.Notebooks.Context.{Surroundings, create_notebook_ctx}

-- What `Queue.enqueue` is given.
pub record Job (V : Type 0) : Type 0 where
  pub task : Text
  pub queue : Text
  pub execid : Text
  pub timeout : ℕ
  pub params : ExecutionNbTask V

module _ {V : Type 0} (env : Surroundings V)
    (get_runtime : Text → Text → Option Text → Option (RuntimeData V)) where
  -- `if task.runtime:`
  abbrev pub runtime_of : Text → NbTask V → Option Text → Option (RuntimeData V)
  runtime_of projectid task none = none
  runtime_of projectid task (some r) =
      if is_empty r then none else get_runtime projectid r task.version

  unfoldable pub create_task_ctx : Text → Text → NbTask V → Option Text → ExecutionNbTask V
  create_task_ctx random projectid task prefix =
      create_notebook_ctx env projectid task (some (exec_id random none prefix))
        (runtime_of projectid task task.runtime) none

  -- The context, and the jobs with the new one behind them.
  unfoldable pub enqueue_notebook :
      Text → Text → NbTask V → Option Text → List (Job V) → ExecutionNbTask V × List (Job V)
  unfolding create_task_ctx
  enqueue_notebook random projectid task prefix jobs =
      let nb_ctx = create_task_ctx random projectid task prefix in
      (
        nb_ctx,
        jobs
            ++ record {
              task = codes "labfunctions.control.tasks.notebook_dispatcher";
              queue = nb_ctx.cluster ++ b'.' ∷ nb_ctx.machine;
              execid = nb_ctx.execid;
              timeout = task.timeout;
              params = nb_ctx;
            }
              ∷ [],
      )

  module _ (get_workflow : Text → Text → Option (WorkflowDataWeb V)) where
    -- `if wd and wd.enabled:`
    unfoldable pub enqueue_workflow :
        Text → Text → Text → List (Job V) → Option (ExecutionNbTask V) × List (Job V)
    unfolding enqueue_notebook
    enqueue_workflow random projectid wfid jobs = elim (get_workflow projectid wfid) [
      | none ↦ (none, jobs)
      | some wd ↦
          if wd.enabled
          then (let (ctx, jobs') = enqueue_notebook random projectid wd.nbtask none jobs in
              (some ctx, jobs'))
          else (none, jobs)
    ]
