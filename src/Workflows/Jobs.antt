-- ===== src/Workflows/Jobs.antt =====
-- `JobManager` of labfunctions/control/scheduler.py: the periodic jobs of the workflows. The
-- scheduler is no part of the repository; what is kept is the list of the calls that it gets.
use labfunctions.Prelude.{ℕ, List, [], ◌∷◌, ◌++◌, Option, none, some, Bool, if◌then◌else◌}
use labfunctions.Text.{Text, codes}
use labfunctions.Types.Core.{ExecutionNbTask, ScheduleData, WorkflowDataWeb}
use labfunctions.Types.Runtimes.{RuntimeData}
use labfunctions.Notebooks.Context.{Surroundings}
use labfunctions.Scheduler.{create_task_ctx}

pub record JobRequest (V : Type 0) : Type 0 where
  pub task : Text
  pub queue : Text
  pub jobid : Option Text
  pub params : ExecutionNbTask V
  pub interval : Option Text
  pub cron : Option Text
  pub repeat : Option ℕ

pub data Call (V : Type 0) : Type 0 where
  create_job : JobRequest V → Call V
  enqueue unregister remove : Option Text → Call V

abbrev pub or_empty : Option Text → Text
or_empty none = []
or_empty (some t) = t

module _ {V : Type 0} where
  unfoldable pub unregister_workflow : Option Text → Bool → List (Call V) → List (Call V)
  unregister_workflow wfid remove_job calls =
      calls ++ unregister wfid ∷ (if remove_job then remove wfid ∷ [] else [])

module _ {V : Type 0} (env : Surroundings V)
    (get_runtime : Text → Text → Option Text → Option (RuntimeData V)) where
  -- `ctx.wfid = wd.wfid`; every caller has set the id.
  unfoldable pub context_of : Text → Text → WorkflowDataWeb V → ExecutionNbTask V
  unfolding create_task_ctx
  context_of random projectid wd =
      record (create_task_ctx env get_runtime random projectid wd.nbtask none) {
        wfid = or_empty wd.wfid;
      }

  -- `schedule` is `wd.schedule`, which the callers have tested.
  unfoldable pub register_workflow :
      Text → Text → WorkflowDataWeb V → ScheduleData → List (Call V) → List (Call V)
  unfolding context_of
  register_workflow random projectid wd schedule calls =
      calls
      ++ create_job (record {
        task = codes "labfunctions.control.tasks.workflow_dispatcher";
        queue = wd.nbtask.cluster ++ b'.' ∷ wd.nbtask.machine;
        jobid = wd.wfid;
        params = context_of random projectid wd;
        interval = schedule.interval;
        cron = schedule.cron;
        repeat = schedule.repeat;
      })
        ∷ enqueue wd.wfid
        ∷ []
