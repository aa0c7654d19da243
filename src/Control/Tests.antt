-- ===== src/Control/Tests.antt =====
-- A run of a periodic workflow.
use labfunctions.Prelude.{◌≡◌, true, [], Option, none, some, if◌then◌else◌}
use labfunctions.Text.{Text, codes, teq}
use labfunctions.Dict.{lookup}
use labfunctions.Types.Core.{nb_task, WorkflowDataWeb}
use labfunctions.Types.Runtimes.{RuntimeData}
use labfunctions.Ident.ExecId.{exec_id}
use labfunctions.Notebooks.Context.{Surroundings, dummy_wfid, output_name_of}
use labfunctions.Scheduler.{create_task_ctx}
use labfunctions.Workflows.Jobs.{context_of, or_empty}
use labfunctions.Control.{renewed}
use labfunctions.Control.Dispatch.{renewed-context_of}

abbrev monday : Surroundings Text
monday = record {
  str = λ t. t;
  random_wfid = codes "a1";
  random_execid = codes "b2";
  today = codes "20220103";
  now = codes "2022-01-03T10:00:00";
  version = codes "0.9.0";
  path_join = λ a b. a;
  show_runtime = λ r. r.docker_name;
}

abbrev wd : WorkflowDataWeb Text
wd = record {
  alias = codes "x";
  nbtask = nb_task (codes "nb") [];
  enabled = true;
  wfid = some (codes "w1");
  schedule = none;
}

abbrev no_runtime : Text → Text → Option Text → Option (RuntimeData Text)
no_runtime p r v = none

renewed-context_of_example :
    (lookup
        (codes "EXECID")
        (renewed
          (λ t. t)
          (codes "r2")
          (codes "20220104")
          (codes "later")
          (context_of monday no_runtime (codes "r1") (codes "p") wd)).params
      ≡ (if teq (codes "NOW") (codes "EXECID")
          then some (codes "later")
          else if teq (codes "EXECID") (codes "EXECID")
          then some
              (create_task_ctx monday no_runtime (codes "r1") (codes "p") wd.nbtask none).execid
          else if teq (codes "WFID") (codes "EXECID")
          then some (dummy_wfid monday)
          else lookup (codes "EXECID") wd.nbtask.params))
    × ((renewed
          (λ t. t)
          (codes "r2")
          (codes "20220104")
          (codes "later")
          (context_of monday no_runtime (codes "r1") (codes "p") wd)).execid
        ≡ exec_id (codes "r2") none none)
    × ((renewed
          (λ t. t)
          (codes "r2")
          (codes "20220104")
          (codes "later")
          (context_of monday no_runtime (codes "r1") (codes "p") wd)).wfid
        ≡ or_empty wd.wfid)
    × ((renewed
          (λ t. t)
          (codes "r2")
          (codes "20220104")
          (codes "later")
          (context_of monday no_runtime (codes "r1") (codes "p") wd)).output_name
        ≡ output_name_of monday
            (dummy_wfid monday)
            wd.nbtask.nb_name
            (create_task_ctx monday no_runtime (codes "r1") (codes "p") wd.nbtask none).execid)
renewed-context_of_example =
    renewed-context_of monday no_runtime (codes "r1") (codes "r2") (codes "20220104")
      (codes "later") (codes "p") (codes "EXECID") wd
