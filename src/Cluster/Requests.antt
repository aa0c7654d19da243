-- ===== src/Cluster/Requests.antt =====
-- When a request for a machine is built, and what is in it.
use labfunctions.Prelude.{
  ◌≡◌, refl, List, [], ◌∷◌, ◌↔◌, Option, none, some, arith, map, ap, sym, ◌∙◌, ◌++◌,
}
use labfunctions.Text.{Text, codes}
use labfunctions.Dict.{lookup}
use labfunctions.Effects.{Result, ok, err}
use labfunctions.Cluster.Types.{
  SshKey, BlockStorage, MachineOrm, MachineRequest, ClusterFileType, text, tags,
}
use labfunctions.Cluster.{
  ClusterError, chosen_id, or_key_error, get_machine, get_volume, get_volumes, request_of,
  requested, with_volumes, create_machine_req,
}

of_ok : {A : Type 0} → A → Result ClusterError A → A
of_ok a (err e) = a
of_ok a (ok b) = b

ok_injective : {A : Type 0} {a b : A} → ◌≡◌ {A = Result ClusterError A} (ok a) (ok b) → a ≡ b
unfolding of_ok
ok_injective {a = a} h = ap (of_ok a) h

-- What stands behind the name of the machine: an alias that is given and not empty.
abbrev pub name_id : Option Text → Text → Text
name_id none random = random
name_id (some []) random = random
name_id (some (c ∷ alias)) random = c ∷ alias

chosen_id-name_id :
    (alias : Option Text) (random : Text) → chosen_id alias random ≡ name_id alias random
chosen_id-name_id none random = refl
chosen_id-name_id (some []) random = refl
chosen_id-name_id (some (c ∷ alias)) random = refl

module _ {V : Type 0} (file : ClusterFileType V) where
  -- The volumes of a list of names, in its order.
  abbrev pub Found : List Text → List (BlockStorage V) → Type 0
  Found names volumes = map (λ name. lookup name file.volumes) names ≡ map some volumes

  get_volumes_iff :
      (names : List Text) (volumes : List (BlockStorage V))
      → (get_volumes file names ≡ ok volumes) ↔ Found names volumes
  unfolding get_volumes get_volume
  get_volumes_iff [] [] = (λ h. refl, λ h. refl)
  get_volumes_iff [] (v ∷ vs) = (λ h. ground arith, λ h. ground arith)
  get_volumes_iff (name ∷ names) [] = (λ h. ground arith, λ h. ground arith)
  get_volumes_iff (name ∷ names) (v ∷ vs) =
      (λ h. ground (arith, get_volumes_iff names vs), λ h. ground (arith, get_volumes_iff names vs))

  with_volumes_ok :
      (f : List (BlockStorage V) → MachineRequest V)
      (r : Result ClusterError (List (BlockStorage V))) (req : MachineRequest V)
      → with_volumes f r ≡ ok req
      → (volumes : List (BlockStorage V)) × (r ≡ ok volumes) × (f volumes ≡ req)
  with_volumes_ok f (err e) req h = ground arith
  with_volumes_ok f (ok volumes) req h = (volumes, refl, ok_injective h)

  module _ (ssh_key : SshKey) (pub_key cluster_name id : Text) (req : MachineRequest V) where
    requested_ok :
        (o : Option (MachineOrm V))
        → requested file ssh_key pub_key cluster_name id (or_key_error o) ≡ ok req
        → (machine : MachineOrm V) × (volumes : List (BlockStorage V)) × (o ≡ some machine)
          × Found machine.volumes volumes
          × (request_of ssh_key pub_key cluster_name machine id volumes ≡ req)
    requested_ok none h = ground arith
    requested_ok (some machine) h =
        let (volumes, found, same) =
          with_volumes_ok (request_of ssh_key pub_key cluster_name machine id)
            (get_volumes file machine.volumes) req h in
        (machine, volumes, refl, (get_volumes_iff machine.volumes volumes).0 found, same)

  -- A request is built exactly when the machine and all its volumes are in the file. It is then
  -- named after the machine, with the alias or, if there is none or an empty one, the random text; it
  -- has the size, image and network of the machine's type, the location, provider and GPU of the
  -- machine, its volumes in the order in which the machine names them, the public key and user of the
  -- SSH key, two dynamic addresses, and as labels the cluster, whether there is a GPU, and the tag.
  pub create_machine_req_iff :
      (ssh_key : SshKey) (pub_key machine_name cluster_name : Text) (alias : Option Text)
      (random : Text) (req : MachineRequest V)
      → (create_machine_req file ssh_key pub_key machine_name cluster_name alias random ≡ ok req)
        ↔ ((machine : MachineOrm V) × (volumes : List (BlockStorage V)) × (lookup machine_name
                file.machines
              ≡ some machine)
            × Found machine.volumes volumes
            × (record {
              name = machine.name ++ b'-' ∷ name_id alias random;
              size = machine.machine_type.size;
              image = machine.machine_type.image;
              location = machine.location;
              provider = machine.provider;
              internal_ip = some (codes "dynamic");
              external_ip = some (codes "dynamic");
              volumes = volumes;
              gpu = machine.gpu;
              ssh_public_cert = some pub_key;
              ssh_user = some ssh_key.user;
              network = machine.machine_type.network;
              labels = some (
                  (codes "cluster", text cluster_name)
                  ∷ (
                    codes "gpu",
                    text (elim machine.gpu [ none ↦ codes "no" | some _ ↦ codes "yes" ]),
                  )
                  ∷ (codes "tags", tags (codes "labfunctions" ∷ []))
                  ∷ []);
              extra = none;
            }
                ≡ req))
  unfolding create_machine_req get_machine request_of
  create_machine_req_iff ssh_key pub_key machine_name cluster_name alias random req = (
    λ h.
        requested_ok ssh_key pub_key cluster_name (name_id alias random) req
          (lookup machine_name file.machines)
          (sym (
              ap
                (λ id.
                  requested file ssh_key pub_key cluster_name id
                    (or_key_error (lookup machine_name file.machines)))
                (chosen_id-name_id alias random))
            ∙ h),
    λ (machine, volumes, there, found, same).
        rw
          (chosen_id-name_id alias random, there, (get_volumes_iff machine.volumes volumes).1 found)
          (ap ok same),
  )
