-- ===== src/Notebooks/Globals.antt =====
-- `build_ctx_global` of labfunctions/io/cache.py, which a cached function of a notebook calls with
-- the notebook's globals, on the parameters that labfunctions/notebooks/context.py gave it.
use labfunctions.Prelude.{◌≡◌, Option, none, some}
use labfunctions.Text.{Text, codes, teq}
use labfunctions.Dict.{Dict, lookup}
use labfunctions.Types.Core.{NbTask, SimpleExecCtx}
use labfunctions.Types.Runtimes.{RuntimeData}
use labfunctions.Notebooks.Context.{Surroundings, create_notebook_ctx}
use labfunctions.Notebooks.Context.Params.{lookup-params}

-- `globals_dict.get("NOW", _now)`
abbrev or_now : {V : Type 0} → Option V → V → V
or_now none now = now
or_now (some v) now = v

unfoldable pub build_ctx_global : {V : Type 0} → V → Dict V → SimpleExecCtx V
build_ctx_global now globals_dict = record {
  wfid = lookup (codes "WFID") globals_dict;
  execid = lookup (codes "EXECUTIONID") globals_dict;
  execution_dt = or_now (lookup (codes "NOW") globals_dict) now;
}

module _ {V : Type 0} (env : Surroundings V) where
  -- From the parameters of a notebook the cache takes the workflow and the time of the context, but
  -- as execution what the task itself has under "EXECUTIONID", never the context's execution.
  pub build_ctx_global-params :
      (now : V) (projectid : Text) (task : NbTask V) (execid : Option Text)
      (runtime : Option (RuntimeData V)) (wfid : Option Text)
      → ((build_ctx_global now
            (create_notebook_ctx env projectid task execid runtime wfid).params).wfid
          ≡ some (env.str (create_notebook_ctx env projectid task execid runtime wfid).wfid))
        × ((build_ctx_global now
              (create_notebook_ctx env projectid task execid runtime wfid).params).execution_dt
            ≡ env.str (create_notebook_ctx env projectid task execid runtime wfid).created_at)
        × ((build_ctx_global now
              (create_notebook_ctx env projectid task execid runtime wfid).params).execid
            ≡ lookup (codes "EXECUTIONID") task.params)
  unfolding build_ctx_global teq
  build_ctx_global-params now projectid task execid runtime wfid = (
    lookup-params env projectid task execid runtime wfid (codes "WFID"),
    rw (lookup-params env projectid task execid runtime wfid (codes "NOW")),
    lookup-params env projectid task execid runtime wfid (codes "EXECUTIONID"),
  )
