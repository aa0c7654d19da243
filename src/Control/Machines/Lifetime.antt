-- ===== src/Control/Machines/Lifetime.antt =====
-- A machine from the task that creates it to the one that destroys it.
use labfunctions.Prelude.{ℕ, ◌≡◌, ap, ◌∙◌, Bool, true, Option, none, some, if◌then◌else◌}
use labfunctions.Text.{Text, teq, teq_refl}
use labfunctions.Dict.{lookup}
use labfunctions.Effects.{Result, ok}
use labfunctions.Redis.{Redis}
use labfunctions.Cluster.Types.{
  ClusterFileType, ClusterSpec, SshKey, MachineRequest, MachineInstance,
}
use labfunctions.Cluster.{
  InstanceJson, get_cluster, create_instance, unregister_instance, get_instance,
}
use labfunctions.Cluster.Instances.{
  IsTyped, get_instance-register_instance, unregister_instance-register_instance,
}
use labfunctions.Control.Machines.{
  AgentRequest, SshResult, ServerSettings, CreateRequest, DestroyRequest, TaskError, registered,
  by_provider, answered, destroyed, create_instance_task, destroy_instance_task,
}

module _ {V : Type 0} (agent_async : AgentRequest → ℕ → Option SshResult)
    (settings : ServerSettings) (private_key_path : Text) (redis : Redis) (json : InstanceJson V)
    (file : ClusterFileType V) (create_machine : Text → MachineRequest V → MachineInstance V)
    (ssh_key : SshKey) (pub_key random : Text) (destroy_machine : Text → Text → Bool) where
  abbrev created_state : CreateRequest → redis.State → redis.State
  created_state ctx s =
      (create_instance_task agent_async settings private_key_path redis json file create_machine
        ssh_key pub_key random ctx s).1

  abbrev destroyed_result : DestroyRequest → redis.State → Result TaskError Bool × redis.State
  destroyed_result ctx s =
      destroy_instance_task agent_async settings private_key_path redis json file destroy_machine
        ctx s

  removed :
      (name c : Text) (cluster : ClusterSpec) (cls : Text) (t : redis.State)
      → lookup cluster.provider file.providers ≡ some cls
      → destroy_machine cls name ≡ true
      → destroyed agent_async settings private_key_path redis json file destroy_machine
          (record { cluster_name = c; machine_name = name })
          (ok cluster)
          t
        ≡ (ok true, unregister_instance redis json name c t)
  removed name c cluster cls t provided gone =
      let ctx : DestroyRequest = record { cluster_name = c; machine_name = name } in
      ap
        (λ o.
          by_provider agent_async settings private_key_path redis json file destroy_machine ctx o t)
        provided
      ∙ ap (λ b. answered agent_async settings private_key_path redis json file ctx b t) gone

  -- A machine that the provider makes is registered, whether or not its agent could be deployed. The
  -- task that destroys it succeeds when the cluster has a provider whose call does not raise; then
  -- the machine is not found any more, and every other machine as before the first task.
  pub destroy-create :
      (ctx : CreateRequest) (m : MachineInstance V) (cluster : ClusterSpec) (cls x : Text)
      (s : redis.State)
      → IsTyped redis json s
      → create_instance create_machine file ssh_key pub_key ctx.cluster_name ctx.alias random ≡ ok m
      → get_cluster file ctx.cluster_name ≡ ok cluster
      → lookup cluster.provider file.providers ≡ some cls
      → destroy_machine cls m.machine_name ≡ true
      → (get_instance redis json m.machine_name (created_state ctx s) ≡ ok (some m))
        × ((destroyed_result
              (record { cluster_name = ctx.cluster_name; machine_name = m.machine_name })
              (created_state ctx s)).0
            ≡ ok true)
        × (get_instance redis json x
              (destroyed_result
                (record { cluster_name = ctx.cluster_name; machine_name = m.machine_name })
                (created_state ctx s)).1
            ≡ (if teq m.machine_name x then ok none else get_instance redis json x s))
  unfolding create_instance_task destroy_instance_task
  destroy-create ctx m cluster cls x s typed made known provided gone =
      let c = ctx.cluster_name in
      let made_state =
        ap (λ r. (registered agent_async settings private_key_path redis json file ctx r s).1)
          made in
      let gone_state = removed m.machine_name c cluster cls (created_state ctx s) provided gone in
      let whole =
        ap
          (λ r.
            destroyed agent_async settings private_key_path redis json file destroy_machine
              (record { cluster_name = c; machine_name = m.machine_name }) r (created_state ctx s))
          known
        ∙ gone_state in
      (
        ap (get_instance redis json m.machine_name) made_state
            ∙ (get_instance-register_instance redis json m c c m.machine_name s typed).0
            ∙ rw (teq_refl m.machine_name),
        ap (λ r. r.0) whole,
        ap (λ r. get_instance redis json x r.1) whole
            ∙ ap
                (λ t. get_instance redis json x (unregister_instance redis json m.machine_name c t))
                made_state
            ∙ (unregister_instance-register_instance redis json m c c x s typed).0,
      )
