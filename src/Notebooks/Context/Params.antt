-- ===== src/Notebooks/Context/Params.antt =====
-- The parameters that a notebook gets.
use labfunctions.Prelude.{◌≡◌, false, Option, some, if◌then◌else◌, arith}
use labfunctions.Text.{Text, codes, is_empty, teq}
use labfunctions.Dict.{lookup, lookup-insert}
use labfunctions.Types.Core.{NbTask}
use labfunctions.Types.Runtimes.{RuntimeData}
use labfunctions.Notebooks.Context.{Surroundings, params_of, create_notebook_ctx}

module _ {V : Type 0} (env : Surroundings V) where
  -- The context's own ids and time stand in its parameters under "WFID", "EXECID" and "NOW",
  -- whatever the task gave for these names, and every other parameter is the task's.
  pub lookup-params :
      (projectid : Text) (task : NbTask V) (execid : Option Text) (runtime : Option (RuntimeData V))
      (wfid : Option Text) (j : Text)
      → lookup j (create_notebook_ctx env projectid task execid runtime wfid).params ≡ (
          if teq (codes "NOW") j
          then some
              (env.str (create_notebook_ctx env projectid task execid runtime wfid).created_at)
          else if teq (codes "EXECID") j
          then some (env.str (create_notebook_ctx env projectid task execid runtime wfid).execid)
          else if teq (codes "WFID") j
          then some (env.str (create_notebook_ctx env projectid task execid runtime wfid).wfid)
          else lookup j task.params)
  unfolding create_notebook_ctx params_of
  lookup-params projectid task execid runtime wfid j = simp lookup-insert

  -- The cluster of a context is never empty: an empty one is replaced by the default. The machine
  -- is the task's, so an empty one stays empty.
  pub create_notebook_ctx-queue :
      (projectid : Text) (task : NbTask V) (execid : Option Text) (runtime : Option (RuntimeData V))
      (wfid : Option Text)
      → (is_empty (create_notebook_ctx env projectid task execid runtime wfid).cluster ≡ false)
        × ((create_notebook_ctx env projectid task execid runtime wfid).machine ≡ task.machine)
  unfolding create_notebook_ctx
  create_notebook_ctx-queue projectid task execid runtime wfid = ground arith
