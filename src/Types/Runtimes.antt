-- ===== src/Types/Runtimes.antt =====
-- labfunctions/types/runtimes.py.
use labfunctions.Prelude.{ℕ, Bool, Option}
use labfunctions.Text.{Text}
use labfunctions.Dict.{Dict}

pub record DockerGpuSpec : Type 0 where
  pub cuda : Text
  pub cudnn : Text
  pub cudnn_major_version : Text
  pub nvidia_gpg_key : Text
  pub nvidia_gpg_version : Text

pub record DockerAppUser : Type 0 where
  pub uid : ℕ
  pub gid : ℕ

pub record DockerSpec (V : Type 0) : Type 0 where
  pub image : Text
  pub maintainer : Text
  pub build_packages : Option Text
  pub final_packages : Option Text
  pub user : DockerAppUser
  pub base_template : Text
  pub requirements : Text
  pub gpu : Option DockerGpuSpec
  pub extra : Option (Dict V)

pub record RuntimeSpec (V : Type 0) : Type 0 where
  pub name : Text
  pub container : DockerSpec V
  pub description : Option Text
  pub gpu_support : Bool
  pub version : Option Text
  pub registry : Option Text

pub record RuntimeReq (V : Type 0) : Type 0 where
  pub runtime_name : Text
  pub docker_name : Text
  pub spec : RuntimeSpec V
  pub project_id : Text
  pub version : Text
  pub registry : Option Text

pub record RuntimeData (V : Type 0) : Type 0 where
  pub runtimeid : Text
  pub runtime_name : Text
  pub docker_name : Text
  pub spec : RuntimeSpec V
  pub project_id : Text
  pub version : Text
  pub created_at : Option Text
  pub registry : Option Text
  pub id : Option ℕ

pub record BuildCtx (V : Type 0) : Type 0 where
  pub projectid : Text
  pub spec : RuntimeSpec V
  pub docker_name : Text
  pub version : Text
  pub dockerfile : Text
  pub zip_name : Text
  pub download_zip : Text
  pub execid : Text
  pub project_store_class : Text
  pub project_store_bucket : Text
  pub registry : Option Text
