-- ===== src/Cluster/Instances.antt =====
-- What the register of instances shows after its operations.
use labfunctions.Prelude.{
  ◌≡◌, refl, Bool, true, false, not, ◌&&◌, ◌||◌, Option, none, some, if◌then◌else◌, arith, ap, ◌∙◌,
}
use labfunctions.Text.{Text, teq, teq_refl, member}
use labfunctions.Effects.{ok}
use labfunctions.Redis.{Redis}
use labfunctions.Agents.Register.Keys.{ne_of_teq}
use labfunctions.Cluster.Types.{MachineInstance}
use labfunctions.Cluster.{
  InstanceJson, machine_key, machines_list_key, clusters_list, register_instance,
  unregister_instance, list_instances, instance_of, get_instance,
}

machine_key-list : (n c : Text) → teq (machine_key n) (machines_list_key c) ≡ false
unfolding teq
machine_key-list n c = refl

clusters_list-list : (c : Text) → teq clusters_list (machines_list_key c) ≡ false
unfolding teq
clusters_list-list c = refl

machine_key-clusters : (n : Text) → teq (machine_key n) clusters_list ≡ false
unfolding teq
machine_key-clusters n = refl

same_machine : (n m : Text) → teq (machine_key n) (machine_key m) ≡ teq n m
unfolding teq
same_machine n m = refl

same_list : (c d : Text) → teq (machines_list_key c) (machines_list_key d) ≡ teq c d
unfolding teq
same_list c d = refl

ruleset instance_keys =
    (machine_key-list, clusters_list-list, machine_key-clusters, same_machine, same_list, teq_refl)

module _ {V : Type 0} (redis : Redis) (json : InstanceJson V) where
  -- The keys of the sets hold no string.
  pub record IsTyped (s : redis.State) : Type 0 where
    pub clusters : redis.get s clusters_list ≡ none
    pub list : (c : Text) → redis.get s (machines_list_key c) ≡ none

  pub register_instance-IsTyped :
      (machine : MachineInstance V) (cluster_name : Text) {s : redis.State}
      → IsTyped s
      → IsTyped (register_instance redis json machine cluster_name s)
  unfolding register_instance
  register_instance-IsTyped machine cluster_name typed = record {
    clusters = simp (redis.get-sadd, redis.get-set, instance_keys) typed.clusters;
    list = λ c. simp (redis.get-sadd, redis.get-set, instance_keys) (typed.list c);
  }

  instance_of-if :
      (b : Bool) (u v : Option Text)
      → instance_of redis json (if b then u else v)
        ≡ (if b then instance_of redis json u else instance_of redis json v)
  instance_of-if true u v = refl
  instance_of-if false u v = refl

  instance_of-dumps :
      (m : MachineInstance V) → instance_of redis json (some (json.dumps m)) ≡ ok (some m)
  unfolding instance_of
  instance_of-dumps m = rw (json.dumps-filled m, json.loads-dumps m)

  instance_of-none : instance_of redis json none ≡ ok none
  unfolding instance_of
  instance_of-none = refl

  get-register_instance :
      (m : MachineInstance V) (cluster_name x : Text) (s : redis.State)
      → redis.get (register_instance redis json m cluster_name s) (machine_key x)
        ≡ (if teq m.machine_name x then some (json.dumps m) else redis.get s (machine_key x))
  unfolding register_instance
  get-register_instance m cluster_name x s = simp (redis.get-sadd, redis.get-set, instance_keys)

  get-unregister_instance :
      (name cluster_name x : Text) (s : redis.State)
      → redis.get (unregister_instance redis json name cluster_name s) (machine_key x)
        ≡ (if teq name x then none else redis.get s (machine_key x))
  unfolding unregister_instance
  get-unregister_instance name cluster_name x s =
      simp (redis.get-srem, redis.get-delete, instance_keys)

  get_instance-after :
      (x : Text) (s s' : redis.State) (b : Bool) (v : Option Text)
      → redis.get s' (machine_key x) ≡ (if b then v else redis.get s (machine_key x))
      → get_instance redis json x s'
        ≡ (if b then instance_of redis json v else get_instance redis json x s)
  unfolding get_instance
  get_instance-after x s s' b v h =
      ap (instance_of redis json) h ∙ instance_of-if b v (redis.get s (machine_key x))

  list_instances-register_instance :
      (m : MachineInstance V) (cluster_name c x : Text) (s : redis.State)
      → IsTyped s
      → member x (list_instances redis json c (register_instance redis json m cluster_name s))
        ≡ (teq cluster_name c && teq x m.machine_name || member x (list_instances redis json c s))
  unfolding register_instance list_instances
  list_instances-register_instance m cluster_name c x s typed =
      let s₁ = redis.set s (machine_key m.machine_name) (json.dumps m) in
      let s₂ = redis.sadd s₁ clusters_list cluster_name in
      let free₁ : redis.get s₁ clusters_list ≡ none =
        simp (redis.get-set, instance_keys) typed.clusters in
      let free₂ : redis.get s₂ (machines_list_key cluster_name) ≡ none =
        simp (redis.get-sadd, redis.get-set, instance_keys) (typed.list cluster_name) in
      rw
        (
          redis.sinter-sadd s₂ (machines_list_key cluster_name) (machines_list_key c) m.machine_name
              x free₂,
          redis.sinter-sadd s₁ clusters_list (machines_list_key c) cluster_name x free₁,
          redis.sinter-set s (machine_key m.machine_name) (machines_list_key c) (json.dumps m)
              (ne_of_teq _ _ (machine_key-list m.machine_name c)),
        )
        (simp instance_keys)

  list_instances-unregister_instance :
      (name cluster_name c x : Text) (s : redis.State)
      → IsTyped s
      → member x (list_instances redis json c (unregister_instance redis json name cluster_name s))
        ≡ (not (teq cluster_name c && teq x name) && member x (list_instances redis json c s))
  unfolding unregister_instance list_instances
  list_instances-unregister_instance name cluster_name c x s typed =
      let s₁ = redis.delete s (machine_key name) in
      let free₁ : redis.get s₁ (machines_list_key cluster_name) ≡ none =
        simp (redis.get-delete, instance_keys) (typed.list cluster_name) in
      rw
        (
          redis.sinter-srem s₁ (machines_list_key cluster_name) (machines_list_key c) name x free₁,
          redis.sinter-delete s (machine_key name) (machines_list_key c)
              (ne_of_teq _ _ (machine_key-list name c)),
        )
        (simp instance_keys)

  -- After an instance is registered it is found by its name with all its fields and is on the list
  -- of its cluster; other instances and other clusters are as before.
  pub get_instance-register_instance :
      (m : MachineInstance V) (cluster_name c x : Text) (s : redis.State)
      → IsTyped s
      → (get_instance redis json x (register_instance redis json m cluster_name s)
          ≡ (if teq m.machine_name x then ok (some m) else get_instance redis json x s))
        × (member x (list_instances redis json c (register_instance redis json m cluster_name s))
            ≡ (teq cluster_name c && teq x m.machine_name
                || member x (list_instances redis json c s)))
  get_instance-register_instance m cluster_name c x s typed = (
    get_instance-after x s (register_instance redis json m cluster_name s) (teq m.machine_name x)
          (some (json.dumps m)) (get-register_instance m cluster_name x s)
        ∙ rw (instance_of-dumps m),
    list_instances-register_instance m cluster_name c x s typed,
  )

  -- After an instance is registered and unregistered, no record and no place on the list of its
  -- cluster is left of it; other instances and other clusters are as before.
  pub unregister_instance-register_instance :
      (m : MachineInstance V) (cluster_name c x : Text) (s : redis.State)
      → IsTyped s
      → (get_instance redis json x (
            unregister_instance redis json m.machine_name cluster_name
              (register_instance redis json m cluster_name s))
          ≡ (if teq m.machine_name x then ok none else get_instance redis json x s))
        × (member x (
              list_instances redis json c (
                unregister_instance redis json m.machine_name cluster_name
                  (register_instance redis json m cluster_name s)))
            ≡ (not (teq cluster_name c && teq x m.machine_name)
                && member x (list_instances redis json c s)))
  unregister_instance-register_instance m cluster_name c x s typed =
      let s' = register_instance redis json m cluster_name s in
      let typed' = register_instance-IsTyped m cluster_name typed in
      (
        get_instance-after x s' (unregister_instance redis json m.machine_name cluster_name s')
              (teq m.machine_name x) none (get-unregister_instance m.machine_name cluster_name x s')
            ∙ rw (instance_of-none, (get_instance-register_instance m cluster_name c x s typed).0)
                (ground arith),
        list_instances-unregister_instance m.machine_name cluster_name c x s' typed'
            ∙ rw ((get_instance-register_instance m cluster_name c x s typed).1) (ground arith),
      )
