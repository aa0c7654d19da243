-- ===== src/Executors.antt =====
-- labfunctions/executors/nbtask_base.py: what the executors of notebooks share. What the client of
-- the API server is asked for or told is a state: the results that are registered, the notebooks
-- that are uploaded, and the files that are moved.
pub mod Docker
pub mod Local
pub mod Retry
pub mod Once
mod Tests
use labfunctions.Prelude.{
  ℕ, ◌≡◌, Bool, true, false, List, [], ◌∷◌, ◌++◌, Option, none, some, if◌then◌else◌,
}
use labfunctions.Text.{Text, codes, is_empty}
use labfunctions.Dict.{Dict}
use labfunctions.Types.Core.{ExecutionNbTask, ExecutionResult}
use labfunctions.Types.Runtimes.{RuntimeData}

pub record Site (V : Type 0) : Type 0 where
  pub history : List (ExecutionResult V)
  pub outputs : List (ExecutionResult V)
  pub moves : List (Text × Text)

abbrev pub is_filled : Option Text → Bool
is_filled none = false
is_filled (some t) = if is_empty t then false else true

module _ {V : Type 0} where
  -- `_prepare_runtime`; `show` is the `str` of a runtime, which stands where its name is meant.
  unfoldable pub prepare_runtime : Text → (RuntimeData V → Text) → Option (RuntimeData V) → Text
  prepare_runtime version show none = codes "nuxion/labfunctions" ++ b':' ∷ version
  prepare_runtime version show (some runtime) = elim runtime.registry [
    | none ↦ runtime.docker_name ++ b':' ∷ runtime.version
    | some registry ↦
        if is_empty registry
        then runtime.docker_name ++ b':' ∷ runtime.version
        else registry ++ b'/' ∷ show runtime
  ]

  -- The result of an execution, which `NBTaskDocker.run` and `NBTaskLocal.run` both build.
  unfoldable pub result_of : ExecutionNbTask V → ℕ → Bool → Option Text → ExecutionResult V
  result_of ctx elapsed error error_msg = record {
    projectid = ctx.projectid;
    execid = ctx.execid;
    wfid = ctx.wfid;
    name = ctx.nb_name;
    params = ctx.params;
    input_ = ctx.pm_input;
    error = error;
    elapsed_secs = elapsed;
    created_at = ctx.created_at;
    cluster = some ctx.cluster;
    machine = some ctx.machine;
    runtime = some ctx.runtime;
    docker_name = none;
    output_name = some ctx.output_name;
    output_dir = some ctx.output_dir;
    error_dir = some ctx.error_dir;
    error_msg = error_msg;
  }

  -- `NBTaskExecBase.register`; a file that is missing only prints a warning.
  unfoldable pub register : ExecutionResult V → Site V → Site V
  register result s =
      if is_filled result.output_name
      then record s { history = s.history ++ result ∷ []; outputs = s.outputs ++ result ∷ [] }
      else record s { history = s.history ++ result ∷ [] }
