-- ===== src/Scheduler/Older.antt =====
-- labfunctions/scheduler.py: the scheduler on the queues of RQ. The jobs are a list, in the order in
-- which they were put on their queues, and `calls` is what the library of periodic jobs was asked for.
-- The answers of the database are `rows`; random ids are arguments.
pub mod Dispatched
mod Tests
use labfunctions.Prelude.{
  ℕ, ◌*◌, Bool, true, false, List, [], ◌∷◌, ◌++◌, Option, none, some, if◌then◌else◌,
}
use labfunctions.Text.{Text, is_empty}
use labfunctions.Effects.{Result, ok, err, Action}
use labfunctions.Stores.Files.{Done, done}
use labfunctions.Types.Core.{NbTask, ExecutionNbTask, ScheduleData}
use labfunctions.Types.Runtimes.{RuntimeData, BuildCtx}
use labfunctions.Ident.ExecId.{FirmType, dispatcher, exec_id, firm_by_type}
use labfunctions.Notebooks.Context.{Surroundings, create_notebook_ctx}
use labfunctions.Workflows.{WorkflowModel, get_by_prj_and_wfid_sync, delete_wf}

-- What a worker is to call.
pub data Func (V : Type 0) : Type 0 where
  dispatch : Text → Text → Text → Func V
  docker_exec : ExecutionNbTask V → Func V
  builder_exec : BuildCtx V → Func V

pub record RqJob (V : Type 0) : Type 0 where
  pub queue : Text
  pub func : Func V
  pub job_id : Text
  pub timeout : Option ℕ

-- The project and the workflow of a periodic job, with its times.
pub data Call : Type 0 where
  schedule_at : Text → Text → ℕ → Option Text → Option ℕ → Call
  cron_at : Text → Text → Text → Option ℕ → Call
  cancel : Text → Call

pub record Rq (V : Type 0) : Type 0 where
  pub jobs : List (RqJob V)
  pub calls : List Call

-- The `UnboundLocalError` of `prepare_notebook_job`.
pub data DispatchError : Type 0 where
  unbound_local_error : DispatchError

abbrev pub given : Option Text → Text → Text
given none default = default
given (some t) default = if is_empty t then default else t

module _ {V : Type 0} where
  unfoldable pub put_job : RqJob V → Rq V → Rq V
  put_job job rq = record rq { jobs = rq.jobs ++ job ∷ [] }

  unfoldable pub enqueue_notebook : ExecutionNbTask V → Option Text → Rq V → Rq V
  unfolding put_job
  enqueue_notebook ctx qname rq =
      put_job
        (record {
          queue = given qname (ctx.cluster ++ b'.' ∷ ctx.machine);
          func = docker_exec ctx;
          job_id = ctx.execid;
          timeout = some ctx.timeout;
        })
        rq

  -- A day for a build.
  unfoldable pub enqueue_build : Text → BuildCtx V → Rq V → Rq V
  unfolding put_job
  enqueue_build build_queue ctx rq =
      put_job
        (record {
          queue = build_queue;
          func = builder_exec ctx;
          job_id = ctx.execid;
          timeout = some (60 * 60 * 24);
        })
        rq

  -- `SchedulerExecutor.dispatcher`, on the queue `qname`.
  unfoldable pub enqueue_dispatch : Text → Text → Text → Text → Option Text → Rq V → Rq V
  unfolding put_job
  enqueue_dispatch random qname projectid wfid execid rq =
      let final_id = firm_by_type dispatcher (exec_id random execid none) in
      put_job
        (record {
          queue = qname;
          func = dispatch projectid wfid final_id;
          job_id = final_id;
          timeout = none;
        })
        rq

  -- `_cron2redis` for a schedule with a `cron`, else `_interval2redis`.
  unfoldable pub schedule : Text → Text → ScheduleData → Rq V → Rq V
  schedule projectid wfid sd rq = record rq { calls = rq.calls ++ planned sd.cron ∷ [] }
    where
      planned : Option Text → Call
      planned none = schedule_at projectid wfid sd.start_in_min sd.interval sd.repeat
      planned (some cron) =
          if is_empty cron
          then schedule_at projectid wfid sd.start_in_min sd.interval sd.repeat
          else cron_at projectid wfid cron sd.repeat

  unfoldable pub cancel_job : Text → Rq V → Rq V
  cancel_job wfid rq = record rq { calls = rq.calls ++ cancel wfid ∷ [] }

  unfoldable pub delete_workflow :
      Text → Text → Rq V × List (WorkflowModel V) → Rq V × List (WorkflowModel V)
  unfolding cancel_job
  delete_workflow projectid wfid (rq, rows) = (cancel_job wfid rq, delete_wf projectid wfid rows)

module _ {V : Type 0} (env : Surroundings V) where
  -- The runtime is asked for by the id `None`, which no row has, and so there is none.
  abbrev pub prepared :
      Text → Text → Text → Option (WorkflowModel V) → Result DispatchError (ExecutionNbTask V)
  prepared projectid wfid execid none = err unbound_local_error
  prepared projectid wfid execid (some wm) =
      if wm.enabled
      then ok (create_notebook_ctx env projectid wm.nbtask (some execid) none (some wfid))
      else err unbound_local_error

  unfoldable pub prepare_notebook_job :
      Text → Text → Text → List (WorkflowModel V) → Result DispatchError (ExecutionNbTask V)
  prepare_notebook_job projectid wfid execid rows =
      prepared projectid wfid execid (get_by_prj_and_wfid_sync projectid wfid rows)

  -- None of the exceptions that are caught is raised.
  abbrev pub queued : Result DispatchError (ExecutionNbTask V) → Action (Rq V) DispatchError Done
  queued (err e) rq = (err e, rq)
  queued (ok ctx) rq = (ok done, enqueue_notebook ctx (some ctx.machine) rq)

  unfoldable pub scheduler_dispatcher :
      Text → Text → Text → Option Text → List (WorkflowModel V) → Action (Rq V) DispatchError Done
  unfolding prepare_notebook_job enqueue_notebook
  scheduler_dispatcher random projectid wfid execid rows rq =
      queued
        (prepare_notebook_job projectid wfid
          (firm_by_type dispatcher (exec_id [] (some (given execid random)) none)) rows)
        rq
