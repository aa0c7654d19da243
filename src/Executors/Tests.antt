-- ===== src/Executors/Tests.antt =====
-- Runs of the executors.
use labfunctions.Prelude.{
  ℕ, suc, ◌≡◌, refl, ◌<◌, ◌&&◌, not, Bool, true, false, ltb, [], ◌++◌, Option, none, some,
}
use labfunctions.Text.{Text, codes}
use labfunctions.Dict.{Dict}
use labfunctions.Types.Core.{nb_task, ExecutionNbTask}
use labfunctions.Notebooks.Context.{Surroundings, create_notebook_ctx}
use labfunctions.Executors.{Site}
use labfunctions.Executors.Docker.{Outcome, exited, Client, Credentials, docker_exec}
use labfunctions.Executors.Local.{Executed, failed, exec_local}
use labfunctions.Executors.Once.{records, history-docker_exec}
use labfunctions.Executors.Retry.{simple_retry, simple_retry_lem, nth, all_failed}

abbrev monday : Surroundings Text
monday = record {
  str = λ t. t;
  random_wfid = codes "a1";
  random_execid = codes "b2";
  today = codes "20220103";
  now = codes "2022-01-03T10:00:00";
  version = codes "0.9.0";
  path_join = λ a b. a;
  show_runtime = λ r. r.docker_name;
}

abbrev ctx : ExecutionNbTask Text
ctx = create_notebook_ctx monday (codes "p1") (nb_task (codes "nb") []) none none none

abbrev agent : Credentials
agent = record { access_token = codes "a"; refresh_token = codes "r" }

abbrev client : Client
client = record {
  addr = codes "http://lab";
  private_key = λ p. some (codes "key");
  agent_token = λ p. some agent;
}

-- One task, which a text that is not empty stands for.
abbrev dumps : ExecutionNbTask Text → Text
dumps task = codes "task"

abbrev fails : ExecutionNbTask Text → Executed
fails task = failed (codes "boom")

abbrev site : Site Text
site = record { history = []; outputs = []; moves = [] }

-- A counter that succeeds at two.
abbrev second : ℕ → Bool × ℕ
second n = (ltb 0 n, suc n)

simple_retry_lem_example :
    (b : Bool) × (n : ℕ) × (simple_retry second 5 1 0 ≡ some (b, suc n, nth second (suc n) 0))
    × (n < 3)
    × (all_failed second n 0 ≡ true)
    × ((second (nth second n 0)).0 ≡ b)
    × ((not b && ltb n 2) ≡ false)
simple_retry_lem_example = simple_retry_lem second 5 1 0

-- A Docker that runs the command for any container.
abbrev docker : Text → Text → Option Text → Dict Text → Site Text → Outcome × Site Text
docker image cmd runtime env s =
    (exited (some (exec_local fails ctx 3 s).0) (codes "logs"), (exec_local fails ctx 3 s).1)

history-docker_exec_example :
    (docker_exec client dumps docker false ctx 5 site).1.history
    ≡ [] ++ records client dumps fails docker (codes "logs") 3 ctx 5 (failed (codes "boom"))
history-docker_exec_example =
    history-docker_exec client dumps fails docker (codes "logs") 3 ctx 5 site (codes "key") agent
      (λ gpu env s h. refl) refl refl refl
