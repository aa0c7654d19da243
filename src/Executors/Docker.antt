-- ===== src/Executors/Docker.antt =====
-- `DockerCommand.run` of labfunctions/commands.py, `NBTaskDocker` of
-- labfunctions/executors/nbtask_base.py, and `docker_exec` of labfunctions/executors/docker_exec.py.
-- Docker is the parameter `containers_run`: the image, the command, the runtime and the environment
-- of a container that is started, and how it ended.
use labfunctions.Prelude.{ℕ, zero, Bool, true, false, [], ◌∷◌, Option, none, some, if◌then◌else◌}
use labfunctions.Text.{Text, codes, is_empty}
use labfunctions.Dict.{Dict, insert}
use labfunctions.Effects.{Result, ok, err}
use labfunctions.Types.Core.{ExecutionNbTask, ExecutionResult, ℤ, pos, negsuc}
use labfunctions.Executors.{Site, result_of, register}

-- A container that exits has a status, unless the wait for it failed; starting it may fail too.
pub data Outcome : Type 0 where
  exited : Option ℕ → Text → Outcome
  container_error api_error : Text → Outcome

pub record RunResult : Type 0 where
  pub msg : Text
  pub status : ℤ

-- The `IndexError` of a project without a private key, and the `AttributeError` of one without an
-- agent.
pub data ExecError : Type 0 where
  index_error attribute_error : ExecError

pub record Credentials : Type 0 where
  pub access_token : Text
  pub refresh_token : Text

pub record Client : Type 0 where
  pub addr : Text
  pub private_key : Text → Option Text
  pub agent_token : Text → Option Credentials

abbrev pub task_var : Text
task_var = codes "LF_EXECUTION_TASK"

abbrev pub run_result : Outcome → RunResult
run_result (exited none logs) = record { msg = logs; status = negsuc 0 }
run_result (exited (some code) logs) = record { msg = logs; status = pos code }
run_result (container_error e) = record { msg = e; status = negsuc 1 }
run_result (api_error e) = record { msg = e; status = negsuc 2 }

module _ {S : Type 0}
    (containers_run : Text → Text → Option Text → Dict Text → S → Outcome × S) where
  abbrev pub with_result : Outcome × S → RunResult × S
  with_result (o, s) = (run_result o, s)

  -- `DockerCommand.run`: a container that does not answer in time is killed, and counts as -1.
  unfoldable pub run_command : Text → Text → Dict Text → Bool → S → RunResult × S
  run_command cmd image env_data require_gpu s =
      with_result
        (containers_run image cmd (if require_gpu then some (codes "nvidia") else none) env_data s)

abbrev pub is_failure : ℤ → Bool
is_failure (pos zero) = false
is_failure _ = true

module _ {V : Type 0} (client : Client) (dumps : ExecutionNbTask V → Text) where
  abbrev pub env_of : Option Text → ExecutionNbTask V → Result ExecError (Dict Text)
  env_of none task = err index_error
  env_of (some priv_key) task =
      if is_empty priv_key
      then err index_error
      else ok (
          (codes "PRIVATE_KEY", priv_key)
          ∷ (task_var, dumps task)
          ∷ (codes "LF_WORKFLOW_SERVICE", client.addr)
          ∷ (codes "LF_BASE_PATH", codes "/app")
          ∷ [])

  unfoldable pub build_env : ExecutionNbTask V → Result ExecError (Dict Text)
  build_env task = env_of (client.private_key task.projectid) task

  abbrev pub with_tokens : Credentials → Dict Text → Dict Text
  with_tokens creds env =
      insert (codes "LF_AGENT_REFRESH_TOKEN") creds.refresh_token
        (insert (codes "LF_AGENT_TOKEN") creds.access_token env)

  module _ {S : Type 0}
      (containers_run : Text → Text → Option Text → Dict Text → S → Outcome × S) where
    abbrev pub reported :
        ExecutionNbTask V → ℕ → RunResult × S → Result ExecError (ExecutionResult V) × S
    reported ctx elapsed (result, s) =
        (ok (result_of ctx elapsed (is_failure result.status) (some result.msg)), s)

    abbrev pub run_as :
        ExecutionNbTask V
        → ℕ
        → Dict Text
        → Option Credentials
        → S
        → Result ExecError (ExecutionResult V) × S
    run_as ctx elapsed env none s = (err attribute_error, s)
    run_as ctx elapsed env (some creds) s = reported ctx elapsed (
        run_command containers_run (codes "lab exec local") ctx.runtime (with_tokens creds env) true
          s)

    abbrev pub run_with :
        ExecutionNbTask V
        → ℕ
        → Result ExecError (Dict Text)
        → S
        → Result ExecError (ExecutionResult V) × S
    run_with ctx elapsed (err e) s = (err e, s)
    run_with ctx elapsed (ok env) s = run_as ctx elapsed env (client.agent_token ctx.projectid) s

    -- `NBTaskDocker.run`: `require_gpu=ctx` passes a context, which is never false.
    unfoldable pub run : ExecutionNbTask V → ℕ → S → Result ExecError (ExecutionResult V) × S
    unfolding build_env run_command
    run ctx elapsed s = run_with ctx elapsed (build_env ctx) s

  module _
      (containers_run : Text → Text → Option Text → Dict Text → Site V → Outcome × Site V) where
    abbrev pub registered :
        Bool
        → Result ExecError (ExecutionResult V) × Site V
        → Result ExecError (ExecutionResult V) × Site V
    registered debug (err e, s) = (err e, s)
    registered debug (ok result, s) =
        if result.error
        then if debug then (ok result, s) else (ok result, register result s)
        else (ok result, s)

    -- `debug` says that DEBUG is set to a text that is not empty.
    unfoldable pub docker_exec :
        Bool → ExecutionNbTask V → ℕ → Site V → Result ExecError (ExecutionResult V) × Site V
    unfolding run register
    docker_exec debug ctx elapsed s = registered debug (run containers_run ctx elapsed s)
