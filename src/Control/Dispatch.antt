-- ===== src/Control/Dispatch.antt =====
-- A periodic workflow: the context that is made when it is registered, and what a worker makes of
-- it for each run.
use labfunctions.Prelude.{◌≡◌, refl, ap, ◌∙◌, Option, none, some, if◌then◌else◌, arith}
use labfunctions.Text.{Text, codes, teq}
use labfunctions.Dict.{lookup, lookup-insert}
use labfunctions.Types.Core.{WorkflowDataWeb}
use labfunctions.Types.Runtimes.{RuntimeData}
use labfunctions.Ident.ExecId.{exec_id}
use labfunctions.Notebooks.Context.{Surroundings, dummy_wfid, output_name_of, create_notebook_ctx}
use labfunctions.Notebooks.Context.Params.{lookup-params}
use labfunctions.Scheduler.{create_task_ctx, runtime_of}
use labfunctions.Workflows.Jobs.{context_of, or_empty}
use labfunctions.Control.{renewed}

module _ {V : Type 0} (env : Surroundings V)
    (get_runtime : Text → Text → Option Text → Option (RuntimeData V)) where
  again :
      (j : Text) (a b c d e : Option V)
      → (if teq (codes "NOW") j
          then a
          else if teq (codes "NOW") j
          then b
          else if teq (codes "EXECID") j
          then c
          else if teq (codes "WFID") j
          then d
          else e)
        ≡ (if teq (codes "NOW") j
            then a
            else if teq (codes "EXECID") j
            then c
            else if teq (codes "WFID") j
            then d
            else e)
  again j a b c d e = ground arith

  -- A run of a registered workflow has an execution id of its own and the id of the workflow; but
  -- its notebook is given, under "EXECID" and "WFID", the execution id of the registration and a
  -- temporary workflow id, and its output is named after these two, so that every run of the
  -- workflow has the same output name.
  pub renewed-context_of :
      (random fresh today now p j : Text) (wd : WorkflowDataWeb V)
      → (lookup j (renewed env.str fresh today now (context_of env get_runtime random p wd)).params
          ≡ (if teq (codes "NOW") j
              then some (env.str now)
              else if teq (codes "EXECID") j
              then some (env.str (create_task_ctx env get_runtime random p wd.nbtask none).execid)
              else if teq (codes "WFID") j
              then some (env.str (dummy_wfid env))
              else lookup j wd.nbtask.params))
        × ((renewed env.str fresh today now (context_of env get_runtime random p wd)).execid
            ≡ exec_id fresh none none)
        × ((renewed env.str fresh today now (context_of env get_runtime random p wd)).wfid
            ≡ or_empty wd.wfid)
        × ((renewed env.str fresh today now (context_of env get_runtime random p wd)).output_name
            ≡ output_name_of env
                (dummy_wfid env)
                wd.nbtask.nb_name
                (create_task_ctx env get_runtime random p wd.nbtask none).execid)
  unfolding renewed context_of create_task_ctx create_notebook_ctx
  renewed-context_of random fresh today now p j wd = (
    lookup-insert (codes "NOW") j (env.str now)
          (create_task_ctx env get_runtime random p wd.nbtask none).params
        ∙ ap (λ o. if teq (codes "NOW") j then some (env.str now) else o)
            (lookup-params env p wd.nbtask (some (exec_id random none none))
              (runtime_of env get_runtime p wd.nbtask wd.nbtask.runtime) none j)
        ∙ again j (some (env.str now)) _ _ _ _,
    refl,
    refl,
    refl,
  )
