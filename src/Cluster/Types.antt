-- ===== src/Cluster/Types.antt =====
-- labfunctions/cluster/types.py. `V` is the type of Python's values.
use labfunctions.Prelude.{ℕ, Bool, List, Option}
use labfunctions.Text.{Text}
use labfunctions.Dict.{Dict}

pub record ClusterSpec : Type 0 where
  pub name : Text
  pub machine : Text
  pub provider : Text
  pub location : Option Text
  pub network : Option Text

pub record SshKey : Type 0 where
  pub public_path : Text
  pub private_path : Option Text
  pub user : Text

pub record MachineType (V : Type 0) : Type 0 where
  pub size : Text
  pub image : Text
  pub vcpus : ℕ
  pub network : Text
  pub extra : Option (Dict V)

pub record MachineGpu (V : Type 0) : Type 0 where
  pub name : Text
  pub gpu_type : Text
  pub count : ℕ
  pub extra : Option (Dict V)

-- `Union[int, str]`
pub data Size : Type 0 where
  units : ℕ → Size
  label : Text → Size

pub record BlockStorage (V : Type 0) : Type 0 where
  pub name : Text
  pub size : Size
  pub location : Text
  pub mount : Text
  pub create_if_not_exist : Bool
  pub snapshot : Option Text
  pub image : Option Text
  pub permissions : Option (List Text)
  pub description : Option Text
  pub kind : Option Text
  pub extra : Option (Dict V)

pub record MachineOrm (V : Type 0) : Type 0 where
  pub name : Text
  pub provider : Text
  pub location : Text
  pub machine_type : MachineType V
  pub gpu : Option (MachineGpu V)
  pub volumes : List Text
  pub desc : Option Text

-- The labels that the program writes: texts, and the list of tags.
pub data Label : Type 0 where
  text : Text → Label
  tags : List Text → Label

pub record MachineRequest (V : Type 0) : Type 0 where
  pub name : Text
  pub size : Text
  pub image : Text
  pub location : Text
  pub provider : Text
  pub internal_ip : Option Text
  pub external_ip : Option Text
  pub volumes : List (BlockStorage V)
  pub gpu : Option (MachineGpu V)
  pub ssh_public_cert : Option Text
  pub ssh_user : Option Text
  pub network : Text
  pub labels : Option (Dict Label)
  pub extra : Option (Dict V)

pub record MachineInstance (V : Type 0) : Type 0 where
  pub machine_id : Text
  pub machine_name : Text
  pub location : Text
  pub private_ips : List Text
  pub public_ips : List Text
  pub volumes : List Text
  pub labels : Option (Dict V)
  pub cluster : Text
  pub extra : Option (Dict V)

pub record ClusterFileType (V : Type 0) : Type 0 where
  pub providers : Dict Text
  pub clusters : Dict ClusterSpec
  pub volumes : Dict (BlockStorage V)
  pub machines : Dict (MachineOrm V)
