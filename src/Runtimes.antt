-- ===== src/Runtimes.antt =====
-- labfunctions/runtimes/context.py: the context of an image build. `str(Path(a) / b)`, the Unicode
-- normalisation and the random id are arguments.
mod Tests
pub mod Table
pub mod Uploads
use labfunctions.Prelude.{Bool, true, false, List, [], ◌∷◌, ◌++◌, Option, none, some}
use labfunctions.Text.{Text, codes}
use labfunctions.Text.Split.{rsplit_once}
use labfunctions.Types.Runtimes.{RuntimeSpec, RuntimeData, BuildCtx}
use labfunctions.Utils.Filename.{secure_filename}

abbrev pub project_uploads : Text
project_uploads = codes "uploads"

-- `uri.split("/")[-1]`
unfoldable pub last_part : Text → Text
last_part uri = elim (rsplit_once b'/' uri) [ none ↦ uri | some (_, name) ↦ name ]

-- f"{runtime_name}.{version}.zip"
abbrev pub zip_of : Text → Text → Text
zip_of runtime_name version = runtime_name ++ b'.' ∷ (version ++ codes ".zip")

unfoldable pub execid_for_build : Text → Text
execid_for_build random = codes "bld" ++ random

module _ {V : Type 0} where
  unfoldable pub make_docker_name : Text → RuntimeSpec V → Text
  make_docker_name projectid spec = codes "labfunctions" ++ b'/' ∷ (projectid ++ b'-' ∷ spec.name)

  unfoldable pub local_spec2runtime : Text → RuntimeSpec V → Text → RuntimeData V
  unfolding make_docker_name
  local_spec2runtime projectid spec version = record {
    runtimeid = projectid ++ b'/' ∷ (spec.name ++ b'/' ∷ version);
    runtime_name = spec.name;
    docker_name = make_docker_name projectid spec;
    spec = spec;
    project_id = projectid;
    version = version;
    created_at = none;
    registry = spec.registry;
    id = none;
  }

module _ (nfkd : Text → Text) (path_join : Text → Text → Text) where
  unfoldable pub build_upload_uri : Text → Text → Text → Text
  build_upload_uri projectid runtime_name version =
      path_join (path_join projectid project_uploads)
        (secure_filename nfkd (zip_of runtime_name version))

  unfoldable pub create_build_ctx :
      {V : Type 0} → Text → Text → RuntimeSpec V → Text → Text → Text → Option Text → BuildCtx V
  unfolding build_upload_uri execid_for_build make_docker_name
  create_build_ctx random projectid spec version project_store_class project_store_bucket registry =
      let uri = build_upload_uri projectid spec.name version in
      record {
        projectid = projectid;
        spec = spec;
        docker_name = make_docker_name projectid spec;
        version = version;
        dockerfile = codes "Dockerfile." ++ spec.name;
        zip_name = last_part uri;
        download_zip = uri;
        execid = execid_for_build random;
        project_store_class = project_store_class;
        project_store_bucket = project_store_bucket;
        registry = registry;
      }
