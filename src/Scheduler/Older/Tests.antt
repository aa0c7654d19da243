-- ===== src/Scheduler/Older/Tests.antt =====
-- A run of a dispatch.
use labfunctions.Prelude.{refl, true, List, [], ◌∷◌, none, some}
use labfunctions.Text.{Text, codes, has_char}
use labfunctions.Types.Core.{nb_task, WorkflowDataWeb}
use labfunctions.Notebooks.Context.{Surroundings}
use labfunctions.Ident.ExecId.{dispatcher, firm_by_type}
use labfunctions.Workflows.{WorkflowModel, new_row, get_by_prj_and_wfid_sync}
use labfunctions.Scheduler.Older.{Rq, scheduler_dispatcher}
use labfunctions.Scheduler.Older.Dispatched.{Dispatches, scheduler_dispatcher-Dispatches}

abbrev monday : Surroundings Text
monday = record {
  str = λ t. t;
  random_wfid = codes "a1";
  random_execid = codes "b2";
  today = codes "20220103";
  now = codes "2022-01-03T10:00:00";
  version = codes "0.9.0";
  path_join = λ a b. a;
  show_runtime = λ r. r.docker_name;
}

abbrev wanted : WorkflowDataWeb Text
wanted = record {
  alias = codes "x";
  nbtask = nb_task (codes "nb") [];
  enabled = true;
  wfid = some (codes "w1");
  schedule = none;
}

abbrev rows : List (WorkflowModel Text)
rows = new_row 1 (codes "w1") (codes "p1") wanted ∷ []

abbrev idle : Rq Text
idle = record { jobs = []; calls = [] }

scheduler_dispatcher-Dispatches_example :
    Dispatches monday
      (codes "p1")
      119
      (codes "1")
      (codes "e7")
      idle
      (get_by_prj_and_wfid_sync (codes "p1") (codes "w1") rows)
      (scheduler_dispatcher monday
        (codes "r")
        (codes "p1")
        (codes "w1")
        (some (firm_by_type dispatcher (codes "e7")))
        rows
        idle)
unfolding has_char
scheduler_dispatcher-Dispatches_example =
    scheduler_dispatcher-Dispatches monday (codes "p1") 119 (codes "1") (codes "e7") idle refl
      (codes "r") rows
