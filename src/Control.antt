-- ===== src/Control.antt =====
-- labfunctions/control/tasks.py: what the workers run for a notebook and for a periodic workflow.
mod Tests
pub mod Dispatch
pub mod Machines
use labfunctions.Prelude.{ℕ, Bool, Option, none}
use labfunctions.Text.{Text, codes}
use labfunctions.Dict.{Dict, insert}
use labfunctions.Effects.{Result}
use labfunctions.Types.Core.{ExecutionNbTask, ExecutionResult}
use labfunctions.Ident.ExecId.{exec_id}
use labfunctions.Executors.{Site}
use labfunctions.Executors.Docker.{Outcome, Client, ExecError, docker_exec}

module _ {V : Type 0} where
  -- What `workflow_dispatcher` changes of the context that was made when the workflow was registered.
  unfoldable pub renewed : (Text → V) → Text → Text → Text → ExecutionNbTask V → ExecutionNbTask V
  renewed str random today now ctx = record ctx {
    execid = exec_id random none none;
    params = insert (codes "NOW") (str now) ctx.params;
    created_at = now;
    today = today;
  }

module _ {V : Type 0} (client : Client) (dumps : ExecutionNbTask V → Text)
    (containers_run : Text → Text → Option Text → Dict Text → Site V → Outcome × Site V) where
  unfoldable pub notebook_dispatcher :
      Bool → ExecutionNbTask V → ℕ → Site V → Result ExecError (ExecutionResult V) × Site V
  unfolding docker_exec
  notebook_dispatcher debug task elapsed s =
      docker_exec client dumps containers_run debug task elapsed s

  unfoldable pub workflow_dispatcher :
      (Text → V)
      → Text
      → Text
      → Text
      → Bool
      → ExecutionNbTask V
      → ℕ
      → Site V
      → Result ExecError (ExecutionResult V) × Site V
  unfolding renewed notebook_dispatcher
  workflow_dispatcher str random today now debug task elapsed s =
      notebook_dispatcher debug (renewed str random today now task) elapsed s
