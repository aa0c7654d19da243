-- ===== src/Cluster/Tests.antt =====
-- Runs of the requests and of the register of instances.
use labfunctions.Prelude.{
  ℕ, ◌≡◌, refl, true, false, not, ◌&&◌, ◌++◌, List, [], ◌∷◌, ◌↔◌, Option, none, some, if◌then◌else◌,
}
use labfunctions.Text.{Text, codes, teq, member}
use labfunctions.Dict.{Dict, lookup}
use labfunctions.Effects.{ok}
use labfunctions.Redis.Memory.{memory, empty}
use labfunctions.Samples.{
  quote, unquote, unquote-quote, quote_all, unquote_all, unquote_all-quote_all, then_read,
}
use labfunctions.Cluster.Types.{
  ClusterSpec, SshKey, MachineOrm, BlockStorage, MachineRequest, MachineInstance, ClusterFileType,
  units, text, tags,
}
use labfunctions.Cluster.{
  InstanceJson, request_of, create_machine_req, register_instance, unregister_instance,
  list_instances, get_instance, create_instance, get_cluster,
}
use labfunctions.Cluster.Requests.{Found, name_id, create_machine_req_iff}
use labfunctions.Cluster.Instances.{IsTyped, unregister_instance-register_instance}
use labfunctions.Control.Machines.{
  AgentRequest, SshResult, ServerSettings, CreateRequest, create_instance_task,
  destroy_instance_task,
}
use labfunctions.Control.Machines.Lifetime.{destroy-create}

abbrev disk0 : BlockStorage Text
disk0 = record {
  name = codes "d0";
  size = units 10;
  location = codes "z1";
  mount = codes "/mnt/disk0";
  create_if_not_exist = false;
  snapshot = none;
  image = none;
  permissions = none;
  description = none;
  kind = none;
  extra = none;
}

abbrev small : MachineOrm Text
small = record {
  name = codes "small";
  provider = codes "local";
  location = codes "z1";
  machine_type = record {
    size = codes "s1";
    image = codes "debian";
    vcpus = 1;
    network = codes "default";
    extra = none;
  };
  gpu = none;
  volumes = codes "d0" ∷ [];
  desc = none;
}

abbrev file : ClusterFileType Text
file = record {
  providers = [];
  clusters = [];
  volumes = (codes "d0", disk0) ∷ [];
  machines = (codes "small", small) ∷ [];
}

abbrev key : SshKey
key = record { public_path = codes "k.pub"; private_path = none; user = codes "op" }

abbrev req : MachineRequest Text
req = request_of key (codes "ssh-rsa") (codes "c1") small (codes "x1") (disk0 ∷ [])

create_machine_req_iff_example :
    (create_machine_req file key
        (codes "ssh-rsa")
        (codes "small")
        (codes "c1")
        (some (codes "x1"))
        (codes "r9")
      ≡ ok req)
    ↔ ((machine : MachineOrm Text) × (volumes : List (BlockStorage Text)) × (lookup
            (codes "small")
            file.machines
          ≡ some machine)
        × Found file machine.volumes volumes
        × (record {
          name = machine.name ++ b'-' ∷ name_id (some (codes "x1")) (codes "r9");
          size = machine.machine_type.size;
          image = machine.machine_type.image;
          location = machine.location;
          provider = machine.provider;
          internal_ip = some (codes "dynamic");
          external_ip = some (codes "dynamic");
          volumes = volumes;
          gpu = machine.gpu;
          ssh_public_cert = some (codes "ssh-rsa");
          ssh_user = some key.user;
          network = machine.machine_type.network;
          labels = some (
              (codes "cluster", text (codes "c1"))
              ∷ (codes "gpu", text (elim machine.gpu [ none ↦ codes "no" | some _ ↦ codes "yes" ]))
              ∷ (codes "tags", tags (codes "labfunctions" ∷ []))
              ∷ []);
          extra = none;
        }
            ≡ req))
unfolding request_of
create_machine_req_iff_example =
    create_machine_req_iff file key (codes "ssh-rsa") (codes "small") (codes "c1")
      (some (codes "x1")) (codes "r9") req

built :
    create_machine_req file key
      (codes "ssh-rsa")
      (codes "small")
      (codes "c1")
      (some (codes "x1"))
      (codes "r9")
    ≡ ok req
built = create_machine_req_iff_example.1 (
  small,
  disk0 ∷ [],
  unfold lookup teq in refl,
  unfold lookup teq in refl,
  unfold request_of in refl,
)

pairs : Dict Text → List Text
pairs [] = []
pairs ((k, v) ∷ d) = k ∷ v ∷ pairs d

unpairs : List Text → Dict Text
unpairs [] = []
unpairs (k ∷ []) = []
unpairs (k ∷ v ∷ xs) = (k, v) ∷ unpairs xs

unpairs-pairs : (d : Dict Text) → unpairs (pairs d) ≡ d
unfolding pairs unpairs
unpairs-pairs [] = refl
unpairs-pairs ((k, v) ∷ d) = rw (unpairs-pairs d)

flat : Option (Dict Text) → List Text
unfolding pairs
flat none = []
flat (some d) = [] ∷ pairs d

unflat : List Text → Option (Dict Text)
unfolding unpairs
unflat [] = none
unflat (_ ∷ xs) = some (unpairs xs)

unflat-flat : (o : Option (Dict Text)) → unflat (flat o) ≡ o
unfolding unflat flat
unflat-flat none = refl
unflat-flat (some d) = rw (unpairs-pairs d)

abbrev write_instance : MachineInstance Text → Text
write_instance m =
    0
    ∷ quote m.machine_id (
        quote m.machine_name (
          quote m.location (
            quote m.cluster (
              quote_all m.private_ips (
                quote_all m.public_ips (
                  quote_all m.volumes
                    (quote_all (flat m.labels) (quote_all (flat m.extra) []))))))))

abbrev read_lists : Text → Text → Text → Text → Text → Option (MachineInstance Text)
read_lists machine_id machine_name location cluster s = then_read (unquote_all s) (λ private_ips s.
    then_read (unquote_all s) (λ public_ips s. then_read (unquote_all s) (λ volumes s.
      then_read (unquote_all s) (λ labels s. then_read (unquote_all s) (λ extra s. some (record {
        machine_id = machine_id;
        machine_name = machine_name;
        location = location;
        private_ips = private_ips;
        public_ips = public_ips;
        volumes = volumes;
        labels = unflat labels;
        cluster = cluster;
        extra = unflat extra;
      }))))))

abbrev read_instance : Text → Option (MachineInstance Text)
read_instance [] = none
read_instance (_ ∷ s) = then_read (unquote s) (λ machine_id s.
    then_read (unquote s) (λ machine_name s. then_read (unquote s) (λ location s.
      then_read (unquote s) (λ cluster s. read_lists machine_id machine_name location cluster s))))

read-write_instance : (m : MachineInstance Text) → read_instance (write_instance m) ≡ some m
read-write_instance m = simp (unquote-quote, unquote_all-quote_all, unflat-flat)

abbrev json : InstanceJson Text
json = record {
  dumps = write_instance;
  loads = read_instance;
  loads-dumps = read-write_instance;
  dumps-filled = λ m. refl;
}

abbrev box : MachineInstance Text
box = record {
  machine_id = codes "i1";
  machine_name = codes "small-x1";
  location = codes "z1";
  private_ips = codes "10.0.0.3" ∷ [];
  public_ips = [];
  volumes = [];
  labels = none;
  cluster = codes "c1";
  extra = none;
}

empty-IsTyped : IsTyped memory json empty
unfolding lookup
empty-IsTyped = record { clusters = refl; list = λ c. refl }

unregister_instance-register_instance_example :
    (get_instance memory json (codes "small-x1") (
        unregister_instance memory json box.machine_name
          (codes "c1")
          (register_instance memory json box (codes "c1") empty))
      ≡ (if teq box.machine_name (codes "small-x1")
          then ok none
          else get_instance memory json (codes "small-x1") empty))
    × (member (codes "small-x1") (
          list_instances memory json (codes "c1") (
            unregister_instance memory json box.machine_name
              (codes "c1")
              (register_instance memory json box (codes "c1") empty)))
        ≡ (not (teq (codes "c1") (codes "c1") && teq (codes "small-x1") box.machine_name)
            && member (codes "small-x1") (list_instances memory json (codes "c1") empty)))
unregister_instance-register_instance_example =
    unregister_instance-register_instance memory json box (codes "c1") (codes "c1")
      (codes "small-x1") empty empty-IsTyped

abbrev c1 : ClusterSpec
c1 = record {
  name = codes "c1";
  machine = codes "small";
  provider = codes "local";
  location = none;
  network = none;
}

abbrev whole_file : ClusterFileType Text
whole_file = record file {
  providers = (codes "local", codes "Local") ∷ [];
  clusters = (codes "c1", c1) ∷ [];
}

abbrev settings : ServerSettings
settings = record {
  agent_token = codes "a";
  agent_refresh_token = codes "r";
  web_redis = codes "w";
  queue_redis = codes "q";
  control_queue = codes "c";
  workflow_service = codes "s";
}

-- SSH that never answers.
abbrev no_answer : AgentRequest → ℕ → Option SshResult
no_answer r n = none

abbrev with_agent : CreateRequest
with_agent = record {
  cluster_name = codes "c1";
  alias = some (codes "x1");
  agent = some (record {
    qnames = codes "gpu" ∷ [];
    use_public = false;
    docker_image = codes "i";
    docker_version = codes "v";
    worker_procs = 1;
  });
}

destroy-create_example :
    (get_instance memory json
        (codes "small-x1")
        (create_instance_task no_answer settings [] memory json whole_file
          (λ cls r. box)
          key
          (codes "ssh-rsa")
          (codes "r9")
          with_agent
          empty).1
      ≡ ok (some box))
    × ((destroy_instance_task no_answer settings [] memory json whole_file
          (λ cls n. true)
          (record { cluster_name = codes "c1"; machine_name = codes "small-x1" })
          (create_instance_task no_answer settings [] memory json whole_file
            (λ cls r. box)
            key
            (codes "ssh-rsa")
            (codes "r9")
            with_agent
            empty).1).0
        ≡ ok true)
    × (get_instance memory json
          (codes "small-x1")
          (destroy_instance_task no_answer settings [] memory json whole_file
            (λ cls n. true)
            (record { cluster_name = codes "c1"; machine_name = codes "small-x1" })
            (create_instance_task no_answer settings [] memory json whole_file
              (λ cls r. box)
              key
              (codes "ssh-rsa")
              (codes "r9")
              with_agent
              empty).1).1
        ≡ (if teq (codes "small-x1") (codes "small-x1")
            then ok none
            else get_instance memory json (codes "small-x1") empty))
unfolding create_instance get_cluster lookup teq create_machine_req labfunctions.Cluster.get_machine
    labfunctions.Cluster.get_volumes labfunctions.Cluster.get_volume request_of
destroy-create_example =
    destroy-create no_answer settings [] memory json whole_file (λ cls r. box) key (codes "ssh-rsa")
      (codes "r9") (λ cls n. true) with_agent box c1 (codes "Local") (codes "small-x1") empty
      empty-IsTyped refl refl refl refl
