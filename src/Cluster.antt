-- ===== src/Cluster.antt =====
-- labfunctions/cluster/control.py: the file of clusters, the requests for machines, and the register
-- of the instances in Redis. The provider of machines is the parameter `create_machine`, the text
-- of an instance and its inverse the parameter `json`.
mod Tests
pub mod Types
pub mod Requests
pub mod Instances
use labfunctions.Prelude.{
  ◌≡◌, Bool, true, false, List, [], ◌∷◌, ◌++◌, Option, none, some, if◌then◌else◌,
}
use labfunctions.Text.{Text, codes, is_empty, teq}
use labfunctions.Dict.{Dict, lookup, keys}
use labfunctions.Effects.{Result, ok, err}
use labfunctions.Redis.{Redis}
use labfunctions.Cluster.Types.{
  ClusterSpec, SshKey, BlockStorage, MachineOrm, Label, text, tags, MachineRequest, MachineInstance,
  ClusterFileType,
}

-- `KeyError` for a name that the file does not have; a text that is not JSON.
pub data ClusterError : Type 0 where
  key_error bad_json : ClusterError

abbrev pub cloud_tag : Text
cloud_tag = codes "labfunctions"

-- `alias or generate_random(...)`
abbrev pub chosen_id : Option Text → Text → Text
chosen_id none random = random
chosen_id (some alias) random = if is_empty alias then random else alias

abbrev pub or_key_error : {A : Type 0} → Option A → Result ClusterError A
or_key_error none = err key_error
or_key_error (some a) = ok a

module _ {V : Type 0} where
  unfoldable pub get_cluster : ClusterFileType V → Text → Result ClusterError ClusterSpec
  get_cluster file name = or_key_error (lookup name file.clusters)

  unfoldable pub get_machine : ClusterFileType V → Text → Result ClusterError (MachineOrm V)
  get_machine file name = or_key_error (lookup name file.machines)

  unfoldable pub get_volume : ClusterFileType V → Text → Result ClusterError (BlockStorage V)
  get_volume file name = or_key_error (lookup name file.volumes)

  unfoldable pub machines_by_provider : Text → Dict (MachineOrm V) → List (MachineOrm V)
  machines_by_provider provider [] = []
  machines_by_provider provider ((k, m) ∷ machines) =
      let rest = machines_by_provider provider machines in
      if teq m.provider provider then m ∷ rest else rest

  abbrev add_volume :
      Result ClusterError (BlockStorage V)
      → Result ClusterError (List (BlockStorage V))
      → Result ClusterError (List (BlockStorage V))
  add_volume (err e) rest = err e
  add_volume (ok v) (err e) = err e
  add_volume (ok v) (ok vs) = ok (v ∷ vs)

  -- `[self.cluster.get_volume(vol) for vol in names]`
  unfoldable pub get_volumes :
      ClusterFileType V → List Text → Result ClusterError (List (BlockStorage V))
  get_volumes file [] = ok []
  get_volumes file (name ∷ names) =
      let rest = get_volumes file names in add_volume (get_volume file name) rest

  abbrev labels_of : Text → MachineOrm V → Dict Label
  labels_of cluster_name machine =
      (codes "cluster", text cluster_name)
      ∷ (codes "gpu", text (elim machine.gpu [ none ↦ codes "no" | some _ ↦ codes "yes" ]))
      ∷ (codes "tags", tags (cloud_tag ∷ []))
      ∷ []

  -- The request that `_create_machine_req` builds when all names are found. `id` is the alias or a
  -- random text.
  unfoldable pub request_of :
      SshKey → Text → Text → MachineOrm V → Text → List (BlockStorage V) → MachineRequest V
  request_of ssh_key pub_key cluster_name machine id volumes = record {
    name = machine.name ++ b'-' ∷ id;
    size = machine.machine_type.size;
    image = machine.machine_type.image;
    location = machine.location;
    provider = machine.provider;
    internal_ip = some (codes "dynamic");
    external_ip = some (codes "dynamic");
    volumes = volumes;
    gpu = machine.gpu;
    ssh_public_cert = some pub_key;
    ssh_user = some ssh_key.user;
    network = machine.machine_type.network;
    labels = some (labels_of cluster_name machine);
    extra = none;
  }

  abbrev pub with_volumes :
      (List (BlockStorage V) → MachineRequest V)
      → Result ClusterError (List (BlockStorage V))
      → Result ClusterError (MachineRequest V)
  with_volumes f (err e) = err e
  with_volumes f (ok vs) = ok (f vs)

  -- What follows the lookup of the machine.
  abbrev pub requested :
      ClusterFileType V
      → SshKey
      → Text
      → Text
      → Text
      → Result ClusterError (MachineOrm V)
      → Result ClusterError (MachineRequest V)
  requested file ssh_key pub_key cluster_name id (err e) = err e
  requested file ssh_key pub_key cluster_name id (ok machine) =
      with_volumes (request_of ssh_key pub_key cluster_name machine id)
        (get_volumes file machine.volumes)

  unfoldable pub create_machine_req :
      ClusterFileType V
      → SshKey
      → Text
      → Text
      → Text
      → Option Text
      → Text
      → Result ClusterError (MachineRequest V)
  create_machine_req file ssh_key pub_key machine_name cluster_name alias random =
      requested file ssh_key pub_key cluster_name (chosen_id alias random)
        (get_machine file machine_name)

  -- `get_provider` looks the class of the provider up before the machine is created.
  unfoldable pub create_instance :
      {I : Type 0}
      → (Text → MachineRequest V → I)
      → ClusterFileType V
      → SshKey
      → Text
      → Text
      → Option Text
      → Text
      → Result ClusterError I
  create_instance create_machine file ssh_key pub_key cluster_name alias random =
      elim (get_cluster file cluster_name) [
        | err e ↦ err e
        | ok cluster ↦
            elim (create_machine_req file ssh_key pub_key cluster.machine cluster.name alias
              random) [
                | err e ↦ err e
                | ok req ↦ elim (lookup req.provider file.providers) [
                  | none ↦ err key_error
                  | some cls ↦ ok (create_machine cls req)
                ]
              ]
      ]

pub record InstanceJson (V : Type 0) : Type 0 where
  pub dumps : MachineInstance V → Text
  pub loads : Text → Option (MachineInstance V)
  pub loads-dumps : (m : MachineInstance V) → loads (dumps m) ≡ some m
  -- The text of an object is not empty.
  pub dumps-filled : (m : MachineInstance V) → is_empty (dumps m) ≡ false

abbrev pub machine_key : Text → Text
machine_key name = codes "lab.mch::" ++ name

abbrev pub machines_list_key : Text → Text
machines_list_key cluster_name = codes "lab.machines::" ++ cluster_name

abbrev pub clusters_list : Text
clusters_list = codes "lab.clusters"

module _ {V : Type 0} (redis : Redis) (json : InstanceJson V) where
  -- A pipeline is one transaction.
  unfoldable pub register_instance : MachineInstance V → Text → redis.State → redis.State
  register_instance machine cluster_name s =
      let s = redis.set s (machine_key machine.machine_name) (json.dumps machine) in
      let s = redis.sadd s clusters_list cluster_name in
      redis.sadd s (machines_list_key cluster_name) machine.machine_name

  unfoldable pub unregister_instance : Text → Text → redis.State → redis.State
  unregister_instance machine_name cluster_name s =
      let s = redis.delete s (machine_key machine_name) in
      redis.srem s (machines_list_key cluster_name) machine_name

  unfoldable pub list_instances : Text → redis.State → List Text
  list_instances cluster_name s = redis.sinter s (machines_list_key cluster_name)

  -- `if data:` fails for a missing key and for an empty text.
  unfoldable pub instance_of : Option Text → Result ClusterError (Option (MachineInstance V))
  instance_of none = ok none
  instance_of (some jdata) =
      if is_empty jdata
      then ok none
      else elim (json.loads jdata) [ none ↦ err bad_json | some m ↦ ok (some m) ]

  unfoldable pub get_instance :
      Text → redis.State → Result ClusterError (Option (MachineInstance V))
  get_instance machine_name s = instance_of (redis.get s (machine_key machine_name))
