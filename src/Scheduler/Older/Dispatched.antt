-- ===== src/Scheduler/Older/Dispatched.antt =====
-- From the dispatch of a workflow to the job of its notebook.
use labfunctions.Prelude.{
  ℕ, ◌≡◌, refl, Bool, true, false, List, [], ◌∷◌, ◌++◌, Option, none, some, if◌then◌else◌,
}
use labfunctions.Text.{Text, has_char}
use labfunctions.Effects.{Result, ok, err}
use labfunctions.Stores.Files.{Done, done}
use labfunctions.Types.Core.{NbTask, ExecutionNbTask}
use labfunctions.Ident.ExecId.{
  dispatcher, firm_name, exec_id, firm_with, firm_by_type, firm_all, pure, pure-firm_all,
}
use labfunctions.Notebooks.Context.{Surroundings, create_notebook_ctx}
use labfunctions.Workflows.{WorkflowModel, get_by_prj_and_wfid_sync}
use labfunctions.Scheduler.Older.{
  Rq, RqJob, docker_exec, DispatchError, unbound_local_error, given, put_job, enqueue_notebook,
  queued, prepared, prepare_notebook_job, scheduler_dispatcher,
}

module _ {V : Type 0} (env : Surroundings V) (p : Text) (c : ℕ) (w e : Text) (rq : Rq V) where
  -- One more job, for the notebook of the workflow, on the queue of its machine, or of its cluster
  -- and machine where the machine has no name, under an id whose
  -- pure form is the one that was asked for.
  abbrev pub IsQueued : NbTask V → Result DispatchError Done × Rq V → Type 0
  IsQueued task m =
      (ctx : ExecutionNbTask V) × (job : RqJob V) × (m
        ≡ (ok done, record rq { jobs = rq.jobs ++ job ∷ [] }))
      × (job.func ≡ docker_exec ctx)
      × (ctx.projectid ≡ p)
      × (ctx.wfid ≡ c ∷ w)
      × (ctx.nb_name ≡ task.nb_name)
      × (job.queue ≡ given (some task.machine) (ctx.cluster ++ b'.' ∷ task.machine))
      × (pure job.job_id ≡ e)

  abbrev Answers : Bool → NbTask V → Result DispatchError Done × Rq V → Type 0
  Answers true task m = IsQueued task m
  Answers false task m = m ≡ (err unbound_local_error, rq)

  -- What a dispatch does for the row of its workflow, if there is one.
  abbrev pub Dispatches : Option (WorkflowModel V) → Result DispatchError Done × Rq V → Type 0
  Dispatches none m = m ≡ (err unbound_local_error, rq)
  Dispatches (some wm) m = Answers wm.enabled wm.nbtask m

  module _ (whole : has_char b'.' e ≡ false) where
    queued-Answers :
        (enabled : Bool) (task : NbTask V)
        → Answers enabled task (
            queued env
              (if enabled
                then ok (
                    create_notebook_ctx env p task
                      (some (firm_all (firm_name dispatcher ∷ firm_name dispatcher ∷ []) e))
                      none
                      (some (c ∷ w)))
                else err unbound_local_error)
              rq)
    unfolding enqueue_notebook put_job create_notebook_ctx firm_all firm_with
    queued-Answers true task = (
      _,
      _,
      refl,
      refl,
      refl,
      refl,
      refl,
      refl,
      pure-firm_all (firm_name dispatcher ∷ firm_name dispatcher ∷ []) e whole,
    )
    queued-Answers false task = refl

    prepared-Dispatches :
        (o : Option (WorkflowModel V))
        → Dispatches o (
            queued env
              (prepared env p
                (c ∷ w)
                (firm_all (firm_name dispatcher ∷ firm_name dispatcher ∷ []) e)
                o)
              rq)
    prepared-Dispatches none = refl
    prepared-Dispatches (some wm) = queued-Answers wm.enabled wm.nbtask

    -- The worker runs a dispatch of a workflow, whose id is not empty, that carries the id of an
    -- execution, signed by the dispatcher, where this id has no dot. For a workflow of the project that is enabled, it puts one job behind the
    -- others: the notebook of the workflow, on the queue of its machine, under an id whose pure form
    -- is that of the execution. For one that is missing or disabled it raises an exception that
    -- nothing catches, and neither a job nor a call of the library of periodic jobs is added, so the
    -- periodic job is not cancelled.
    pub scheduler_dispatcher-Dispatches :
        (random : Text) (rows : List (WorkflowModel V))
        → Dispatches
            (get_by_prj_and_wfid_sync p (c ∷ w) rows)
            (scheduler_dispatcher env random p (c ∷ w) (some (firm_by_type dispatcher e)) rows rq)
    unfolding scheduler_dispatcher prepare_notebook_job firm_by_type firm_with exec_id firm_all
    scheduler_dispatcher-Dispatches random rows =
        prepared-Dispatches (get_by_prj_and_wfid_sync p (c ∷ w) rows)
