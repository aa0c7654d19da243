-- ===== src/Workflows/Tests.antt =====
-- Runs of the workflows.
use labfunctions.Prelude.{
  ◌≡◌, refl, Bool, true, ◌&&◌, List, [], ◌∷◌, Option, none, some, if◌then◌else◌,
}
use labfunctions.Text.{Text, codes, teq}
use labfunctions.Types.Core.{nb_task, ScheduleData, WorkflowDataWeb}
use labfunctions.Types.Runtimes.{RuntimeData}
use labfunctions.Notebooks.Context.{Surroundings}
use labfunctions.Workflows.{
  WorkflowModel, is_unique, new_row, update_rows, has_wfid, assigned, get_by_prj_and_wfid_sync,
}
use labfunctions.Workflows.Web.{
  Server, failed, with_wfid, workflow_get, workflow_create, workflow_update, workflow_delete,
}
use labfunctions.Workflows.Web.Answers.{
  made, workflow_get-workflow_create, workflow_get-workflow_delete, workflow_update_any_project,
}

abbrev monday : Surroundings Text
monday = record {
  str = λ t. t;
  random_wfid = codes "a1";
  random_execid = codes "b2";
  today = codes "20220103";
  now = codes "2022-01-03T10:00:00";
  version = codes "0.9.0";
  path_join = λ a b. a;
  show_runtime = λ r. r.docker_name;
}

abbrev daily : ScheduleData
daily = record { start_in_min = 0; repeat = none; cron = none; interval = some (codes "1d") }

abbrev wanted : WorkflowDataWeb Text
wanted = record {
  alias = codes "x";
  nbtask = nb_task (codes "nb") [];
  enabled = true;
  wfid = some (codes "w1");
  schedule = some daily;
}

abbrev two_rows : List (WorkflowModel Text)
two_rows =
    new_row 1 (codes "w1") (codes "p1") wanted ∷ new_row 2 (codes "w2") (codes "p2") wanted ∷ []

abbrev server : Server Text
server = record { rows = two_rows; calls = []; jobs = [] }

abbrev no_runtime : Text → Text → Option Text → Option (RuntimeData Text)
no_runtime p r v = none

abbrev known : Text → Bool
known p = true

abbrev other : WorkflowDataWeb Text
other = record wanted { alias = codes "y" }

workflow_get-workflow_delete_example :
    workflow_get (codes "p2") (codes "w1") (workflow_delete (codes "p1") (codes "w1") server).1 ≡ (
      if teq (codes "p1") (codes "p2") && teq (codes "w1") (codes "w1")
      then failed 404
      else workflow_get (codes "p2") (codes "w1") server)
workflow_get-workflow_delete_example =
    workflow_get-workflow_delete (codes "p1") (codes "p2") (codes "w1") (codes "w1") server

workflow_get-workflow_create_example :
    ((workflow_create monday known no_runtime 3
        (codes "w3")
        (codes "r")
        (codes "p1")
        (some other)
        server).0
      ≡ with_wfid 201 (some (codes "w3")))
    × (workflow_get
          (codes "p1")
          (codes "w3")
          (workflow_create monday known no_runtime 3
            (codes "w3")
            (codes "r")
            (codes "p1")
            (some other)
            server).1
        ≡ made monday known no_runtime (codes "w3") other (some daily))
unfolding teq
workflow_get-workflow_create_example =
    workflow_get-workflow_create monday known no_runtime 3 (codes "w3") (codes "r") (codes "p1")
      other server refl refl

workflow_update_any_project_example :
    ((workflow_update monday known no_runtime 3 [] (codes "r") (codes "p2") (some wanted) server).0
      ≡ with_wfid 201 (some (codes "w1")))
    × (get_by_prj_and_wfid_sync
          (codes "p1")
          (codes "w1")
          (workflow_update monday known no_runtime 3 []
            (codes "r")
            (codes "p2")
            (some wanted)
            server).1.rows
        ≡ (elim (get_by_prj_and_wfid_sync (codes "p1") (codes "w1") server.rows) [
          | none ↦ none
          | some r ↦ some (if has_wfid (codes "w1") r then assigned 3 wanted r else r)
        ]))
unfolding is_unique update_rows teq labfunctions.Query.update_where
workflow_update_any_project_example =
    workflow_update_any_project monday known no_runtime 3 [] (codes "r") (codes "p2") (codes "p1")
      (codes "w1") (49 ∷ []) 119 wanted server refl refl
