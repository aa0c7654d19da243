-- ===== src/Client/Workflows/Tests.antt =====
-- Runs of the push of workflows.
use labfunctions.Prelude.{ℕ, refl, Bool, true, false, List, [], ◌∷◌, Option, none, some}
use labfunctions.Text.{Text, codes, teq}
use labfunctions.Dict.{Dict, lookup}
use labfunctions.Types.Core.{WorkflowDataWeb, nb_task}
use labfunctions.Types.Runtimes.{RuntimeData}
use labfunctions.Notebooks.Context.{Surroundings}
use labfunctions.Client.AuthFlow.{Response}
use labfunctions.Client.LabState.{LabState}
use labfunctions.Client.Workflows.{workflows_push}
use labfunctions.Client.Workflows.Server.{Handled, post, put, response}
use labfunctions.Workflows.{register, is_unique}
use labfunctions.Workflows.Web.{workflow_create}
use labfunctions.Types.Projects.{ProjectData}
use labfunctions.Client.Workflows.Registered.{IsStored, workflows_push-IsStored}
use labfunctions.Client.Workflows.Pending.{
  Accepts, AcceptsAll, none_left, not_sent, taken, Settled, workflows_push-Settled,
}

abbrev monday : Surroundings Text
monday = record {
  str = λ t. t;
  random_wfid = codes "a1";
  random_execid = codes "b2";
  today = codes "20220103";
  now = codes "2022-01-03T10:00:00";
  version = codes "0.9.0";
  path_join = λ a b. a;
  show_runtime = λ r. r.docker_name;
}

abbrev new : Text → WorkflowDataWeb Text
new alias = record {
  alias = alias;
  nbtask = nb_task (codes "welcome") [];
  enabled = true;
  wfid = none;
  schedule = none;
}

abbrev old : WorkflowDataWeb Text
old = record (new (codes "c")) { wfid = some (codes "w9") }

abbrev wanted : List (WorkflowDataWeb Text)
wanted = new (codes "a") ∷ old ∷ new (codes "b") ∷ []

abbrev project : ProjectData
project = record {
  name = codes "lab";
  projectid = codes "p1";
  owner = none;
  agent = none;
  users = none;
  description = none;
  repository = none;
}

abbrev lab : LabState Text
lab = record {
  version = codes "0.2";
  project = some project;
  workflows = (codes "a", new (codes "a")) ∷ (codes "c", old) ∷ (codes "b", new (codes "b")) ∷ [];
  file = none;
}

abbrev no_runtime : Text → Text → Option Text → Option (RuntimeData Text)
no_runtime p r v = none

abbrev known : Text → Bool
known p = true

abbrev said : ℕ → Option (Dict Text)
said n = some ((codes "msg", codes "no") ∷ [])

abbrev fresh : ℕ → Text
fresh n = 119 ∷ n ∷ []

abbrev empty : Handled Text
empty = record { requests = 0; server = record { rows = []; calls = []; jobs = [] } }

workflows_push-IsStored_example :
    IsStored monday known no_runtime said 3 fresh fresh
      (codes "p1")
      (workflows_push
        (post monday known no_runtime said 3 fresh fresh)
        (put monday known no_runtime said 3 fresh fresh)
        (codes "p1")
        true
        false
        (some (codes "labfile.yaml"))
        (lab, empty)).1
workflows_push-IsStored_example =
    workflows_push-IsStored monday known no_runtime said 3 fresh fresh (codes "p1") true
      (some (codes "labfile.yaml")) lab empty

abbrev post_it : Text → WorkflowDataWeb Text → Handled Text → Response × Handled Text
post_it = post monday known no_runtime said 3 fresh fresh

abbrev put_it : Text → WorkflowDataWeb Text → Handled Text → Response × Handled Text
put_it = put monday known no_runtime said 3 fresh fresh

a-Accepts : Accepts (post_it (codes "p1") (new (codes "a")) empty).0
unfolding post response workflow_create register is_unique lookup teq
a-Accepts = record {
  status = refl;
  first_letter = 119;
  letters = 0 ∷ [];
  body = (codes "wfid", fresh 0) ∷ [];
  json = refl;
  named = refl;
}

b-Accepts :
    Accepts
      (post_it (codes "p1") (new (codes "b")) (post_it (codes "p1") (new (codes "a")) empty).1).0
unfolding post response workflow_create register is_unique lookup teq
b-Accepts = record {
  status = refl;
  first_letter = 119;
  letters = 1 ∷ [];
  body = (codes "wfid", fresh 1) ∷ [];
  json = refl;
  named = refl;
}

wanted-AcceptsAll : AcceptsAll post_it (codes "p1") wanted empty
wanted-AcceptsAll = taken refl a-Accepts (not_sent refl (taken refl b-Accepts none_left))

workflows_push-Settled_example :
    Settled post_it put_it (codes "p1") (codes "labfile.yaml") (codes "labfile.yaml") (
      workflows_push post_it put_it
        (codes "p1")
        true
        false
        (some (codes "labfile.yaml"))
        (lab, empty))
unfolding teq
workflows_push-Settled_example =
    workflows_push-Settled post_it put_it (codes "p1") (codes "labfile.yaml") (codes "labfile.yaml")
      wanted lab empty project wanted-AcceptsAll refl refl refl
