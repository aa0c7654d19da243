-- ===== src/Notebooks/Context.antt =====
-- labfunctions/notebooks/context.py. The random ids, the date and the time, the version of the
-- package, `str(Path(a) / b)` and the text of a `RuntimeData` object are arguments.
pub mod Params
pub mod Outputs
use labfunctions.Prelude.{
  ℕ, Bool, true, false, List, [], ◌∷◌, ◌++◌, Option, none, some, if◌then◌else◌,
}
use labfunctions.Text.{Text, codes, is_empty}
use labfunctions.Dict.{Dict, insert}
use labfunctions.Types.Core.{NbTask, ExecutionNbTask, nb_task, machine_type, cluster_name}
use labfunctions.Types.Runtimes.{RuntimeData}

-- What one call reads of its surroundings. The random ids are those of `generate_random`.
pub record Surroundings (V : Type 0) : Type 0 where
  pub str : Text → V
  pub random_wfid : Text
  pub random_execid : Text
  pub today : Text
  pub now : Text
  pub version : Text
  pub path_join : Text → Text → Text
  pub show_runtime : RuntimeData V → Text

-- `a or b` for texts.
abbrev pub or_else : Option Text → Text → Text
or_else none b = b
or_else (some a) b = if is_empty a then b else a

module _ {V : Type 0} (env : Surroundings V) where
  unfoldable pub dummy_wfid : Text
  dummy_wfid = codes "tmp" ++ env.random_wfid

  abbrev with_registry : RuntimeData V → Option Text → Text → Text
  with_registry runtime none plain = plain
  with_registry runtime (some r) plain =
      if is_empty r then plain else r ++ b'/' ∷ env.show_runtime runtime

  unfoldable pub prepare_runtime : Option (RuntimeData V) → Bool → Text
  prepare_runtime none gpu_support =
      if gpu_support
      then codes "nuxion/labfunctions:" ++ (env.version ++ codes "-client-gpu")
      else codes "nuxion/labfunctions:" ++ (env.version ++ codes "-client")
  prepare_runtime (some runtime) gpu_support =
      with_registry runtime runtime.registry (runtime.docker_name ++ b':' ∷ runtime.version)

  -- f"{wfid}.{nb_name}.{execid}.ipynb"
  unfoldable pub output_name_of : Text → Text → Text → Text
  output_name_of wfid nb_name execid = (wfid ++ b'.' ∷ (nb_name ++ b'.' ∷ execid)) ++ codes ".ipynb"

  unfoldable pub params_of : NbTask V → Text → Text → Dict V
  params_of task wfid execid =
      insert (codes "NOW") (env.str env.now) (
        insert (codes "EXECID") (env.str execid) (insert (codes "WFID") (env.str wfid) task.params))

  unfoldable pub create_notebook_ctx :
      Text → NbTask V → Option Text → Option (RuntimeData V) → Option Text → ExecutionNbTask V
  unfolding dummy_wfid
  create_notebook_ctx projectid task execid? runtime wfid? =
      let wfid = or_else wfid? dummy_wfid in
      let execid = or_else execid? env.random_execid in
      let output_dir = codes "outputs/ok/" ++ env.today in
      let output_name = output_name_of wfid task.nb_name execid in
      -- computed and, as in the source, not used below
      let machine = or_else (some task.machine) machine_type in
      record {
        projectid = projectid;
        wfid = wfid;
        execid = execid;
        nb_name = task.nb_name;
        params = params_of task wfid execid;
        runtime = prepare_runtime runtime task.gpu_support;
        pm_input = env.path_join (codes "notebooks/") (task.nb_name ++ codes ".ipynb");
        pm_output = output_dir ++ b'/' ∷ output_name;
        output_name = output_name;
        output_dir = output_dir;
        error_dir = codes "outputs/errors/" ++ env.today;
        today = env.today;
        timeout = task.timeout;
        created_at = env.now;
        gpu_support = task.gpu_support;
        cluster = or_else (some task.cluster) cluster_name;
        machine = task.machine;
        remote_input = none;
        remote_output = none;
        notifications_ok = task.notifications_ok;
        notifications_fail = task.notifications_fail;
      }

  unfoldable pub create_dummy_ctx : Text → Text → Option Text → ExecutionNbTask V
  unfolding create_notebook_ctx
  create_dummy_ctx random projectid execid =
      let dummy_id = or_else execid (codes "tmp." ++ random) in
      create_notebook_ctx projectid (nb_task (codes "welcome") []) (some dummy_id) none none
