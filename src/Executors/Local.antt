-- ===== src/Executors/Local.antt =====
-- `NBTaskLocal` of labfunctions/executors/nbtask_base.py, `local_exec_env` of
-- labfunctions/executors/local_exec.py, and the branch of the command `lab exec local` of
-- labfunctions/cmd/executors.py that runs in a container. Papermill is the parameter `execute`: a
-- notebook ends well, or with a `PapermillExecutionError`, or with another exception, as one that does
-- not exist or whose kernel dies.
use labfunctions.Prelude.{ℕ, Bool, true, false, [], ◌∷◌, ◌++◌, none, some, if◌then◌else◌}
use labfunctions.Text.{Text}
use labfunctions.Effects.{Result, ok, err}
use labfunctions.Types.Core.{ExecutionNbTask, ExecutionResult}
use labfunctions.Executors.{Site, result_of, register}

pub data Executed : Type 0 where
  succeeded : Executed
  failed raised : Text → Executed

module _ {V : Type 0} (execute : ExecutionNbTask V → Executed) where
  -- `_error_handler`
  unfoldable pub error_handler : ExecutionNbTask V → Site V → Site V
  error_handler etask s = record s {
    moves = s.moves ++ (etask.pm_output, etask.error_dir ++ b'/' ∷ etask.output_name) ∷ [];
  }

  abbrev pub run_outcome :
      ExecutionNbTask V → ℕ → Executed → Site V → Result Text (ExecutionResult V) × Site V
  run_outcome ctx elapsed succeeded s = (ok (result_of ctx elapsed false none), s)
  run_outcome ctx elapsed (failed e) s =
      (ok (result_of ctx elapsed true (some e)), error_handler ctx s)
  run_outcome ctx elapsed (raised e) s = (err e, s)

  unfoldable pub run : ExecutionNbTask V → ℕ → Site V → Result Text (ExecutionResult V) × Site V
  unfolding error_handler
  run ctx elapsed s = run_outcome ctx elapsed (execute ctx) s

  abbrev pub kept :
      Bool → Result Text (ExecutionResult V) × Site V → Result Text (ExecutionResult V) × Site V
  kept lf_local (err e, s) = (err e, s)
  kept lf_local (ok result, s) = (ok result, if lf_local then s else register result s)

  -- `lf_local` says that LF_LOCAL is set to a text that is not empty.
  unfoldable pub local_exec_env :
      Bool → ExecutionNbTask V → ℕ → Site V → Result Text (ExecutionResult V) × Site V
  unfolding run register
  local_exec_env lf_local etask elapsed s = kept lf_local (run etask elapsed s)

  abbrev pub exit_status : Result Text (ExecutionResult V) × Site V → ℕ × Site V
  exit_status (err e, s) = (1, s)
  exit_status (ok rsp, s) = (if rsp.error then 255 else 0, s)

  -- The exit status of the command, which is 255 for `sys.exit(-1)` and 1 for an exception, when the
  -- variable with the task is set; a container gets no LF_LOCAL.
  unfoldable pub exec_local : ExecutionNbTask V → ℕ → Site V → ℕ × Site V
  unfolding local_exec_env
  exec_local etask elapsed s = exit_status (local_exec_env false etask elapsed s)
