-- ===== src/Control/Machines.antt =====
-- The tasks of labfunctions/control/tasks.py that create and destroy machines and put agents on them,
-- over the cluster control. The provider of machines and SSH are parameters: `create_machine` and
-- `destroy_machine`, which says whether it raised nothing, and `agent_async`, the answer to a request
-- at each attempt, or none when it raises.
pub mod Lifetime
use labfunctions.Prelude.{
  ℕ, zero, suc, Bool, true, false, List, [], ◌∷◌, Option, none, some, if◌then◌else◌,
}
use labfunctions.Text.{Text, codes}
use labfunctions.Dict.{lookup}
use labfunctions.Effects.{Result, ok, err}
use labfunctions.Redis.{Redis}
use labfunctions.Cluster.Types.{
  ClusterFileType, SshKey, MachineRequest, MachineInstance, ClusterSpec,
}
use labfunctions.Cluster.{
  ClusterError, key_error, InstanceJson, get_cluster, create_instance, register_instance,
  unregister_instance, get_instance,
}

pub record DeployAgentRequest : Type 0 where
  pub qnames : List Text
  pub use_public : Bool
  pub docker_image : Text
  pub docker_version : Text
  pub worker_procs : ℕ

pub record DeployAgentTask : Type 0 where
  pub machine_name : Text
  pub cluster_name : Text
  pub qnames : List Text
  pub use_public : Bool
  pub docker_version : Text
  pub docker_image : Text
  pub worker_procs : ℕ

pub record CreateRequest : Type 0 where
  pub cluster_name : Text
  pub alias : Option Text
  pub agent : Option DeployAgentRequest

pub record DestroyRequest : Type 0 where
  pub cluster_name : Text
  pub machine_name : Text

pub record AgentRequest : Type 0 where
  pub machine_ip : Text
  pub machine_id : Text
  pub private_key_path : Text
  pub cluster : Text
  pub access_token : Text
  pub refresh_token : Text
  pub web_redis : Text
  pub queue_redis : Text
  pub control_queue : Text
  pub workflow_service : Text
  pub qnames : List Text
  pub agent_homedir : Text
  pub agent_name : Option Text
  pub advertise_addr : Option Text
  pub docker_image : Text
  pub docker_version : Text
  pub worker_procs : ℕ

pub record SshResult : Type 0 where
  pub command : Text
  pub return_code : ℕ
  pub stderror : Text
  pub stdout : Text

pub record ServerSettings : Type 0 where
  pub agent_token : Text
  pub agent_refresh_token : Text
  pub web_redis : Text
  pub queue_redis : Text
  pub control_queue : Text
  pub workflow_service : Text

pub data TaskError : Type 0 where
  cluster_failed : ClusterError → TaskError
  retry_error provider_error : TaskError

abbrev pub head : List Text → Option Text
head [] = none
head (ip ∷ ips) = some ip

module _ {V : Type 0} where
  -- `ip = instance.private_ips[0]`, also when the public one is used after it.
  unfoldable pub ip_of : Bool → MachineInstance V → Option Text
  ip_of use_public instance' = elim (head instance'.private_ips) [
    | none ↦ none
    | some ip ↦ if use_public then head instance'.public_ips else some ip
  ]

  -- The request that `_deploy_agent` makes; `qnames` and `worker_procs` of the task are left out.
  unfoldable pub agent_request_of :
      ServerSettings → Text → MachineInstance V → DeployAgentTask → Text → AgentRequest
  agent_request_of settings private_key_path instance' ctx ip = record {
    machine_ip = ip;
    machine_id = instance'.machine_id;
    private_key_path = private_key_path;
    cluster = ctx.cluster_name;
    access_token = settings.agent_token;
    refresh_token = settings.agent_refresh_token;
    web_redis = settings.web_redis;
    queue_redis = settings.queue_redis;
    control_queue = settings.control_queue;
    workflow_service = settings.workflow_service;
    qnames = codes "cpu" ∷ [];
    agent_homedir = codes "/home/op";
    agent_name = none;
    advertise_addr = none;
    docker_image = ctx.docker_image;
    docker_version = ctx.docker_version;
    worker_procs = 2;
  }

  module _ (agent_async : AgentRequest → ℕ → Option SshResult) (settings : ServerSettings)
      (private_key_path : Text) where
    abbrev pub attempt : MachineInstance V → DeployAgentTask → ℕ → Option SshResult
    attempt instance' ctx n = elim (ip_of ctx.use_public instance') [
      | none ↦ none
      | some ip ↦ agent_async (agent_request_of settings private_key_path instance' ctx ip) n
    ]

    -- `@retry(stop=stop_after_attempt(3))`: attempts that raise are made again.
    unfoldable pub deploy_loop : ℕ → ℕ → MachineInstance V → DeployAgentTask → Option SshResult
    unfolding ip_of agent_request_of
    deploy_loop zero n instance' ctx = none
    deploy_loop (suc left) n instance' ctx =
        let rest = deploy_loop left (suc n) instance' ctx in
        elim (attempt instance' ctx n) [ none ↦ rest | some r ↦ some r ]

    unfoldable pub deploy_agent : MachineInstance V → DeployAgentTask → Option SshResult
    unfolding deploy_loop
    deploy_agent instance' ctx = deploy_loop 3 0 instance' ctx

    abbrev pub task_of : MachineInstance V → Text → DeployAgentRequest → DeployAgentTask
    task_of instance' cluster_name agent = record {
      machine_name = instance'.machine_name;
      cluster_name = cluster_name;
      qnames = agent.qnames;
      use_public = agent.use_public;
      docker_version = agent.docker_version;
      docker_image = agent.docker_image;
      worker_procs = agent.worker_procs;
    }

    abbrev pub deployed :
        Option SshResult → MachineInstance V → Result TaskError (MachineInstance V)
    deployed none instance' = err retry_error
    deployed (some response) instance' = ok instance'

    abbrev pub with_agent :
        MachineInstance V → Text → Option DeployAgentRequest → Result TaskError (MachineInstance V)
    with_agent instance' cluster_name none = ok instance'
    with_agent instance' cluster_name (some agent) =
        deployed (deploy_agent instance' (task_of instance' cluster_name agent)) instance'

    module _ (redis : Redis) (json : InstanceJson V) (file : ClusterFileType V) where
      -- What follows the creation by the provider.
      abbrev pub registered :
          CreateRequest
          → Result ClusterError (MachineInstance V)
          → redis.State
          → Result TaskError (MachineInstance V) × redis.State
      registered ctx (err e) s = (err (cluster_failed e), s)
      registered ctx (ok instance') s = (
        with_agent instance' ctx.cluster_name ctx.agent,
        register_instance redis json instance' ctx.cluster_name s,
      )

      unfoldable pub create_instance_task :
          (Text → MachineRequest V → MachineInstance V)
          → SshKey
          → Text
          → Text
          → CreateRequest
          → redis.State
          → Result TaskError (MachineInstance V) × redis.State
      unfolding deploy_agent
      create_instance_task create_machine ssh_key pub_key random ctx s =
          registered ctx
            (create_instance create_machine file ssh_key pub_key ctx.cluster_name ctx.alias random)
            s

      abbrev pub answered :
          DestroyRequest → Bool → redis.State → Result TaskError Bool × redis.State
      answered ctx true s =
          (ok true, unregister_instance redis json ctx.machine_name ctx.cluster_name s)
      answered ctx false s = (err provider_error, s)

      abbrev pub by_provider :
          (Text → Text → Bool)
          → DestroyRequest
          → Option Text
          → redis.State
          → Result TaskError Bool × redis.State
      by_provider destroy_machine ctx none s = (err (cluster_failed key_error), s)
      by_provider destroy_machine ctx (some cls) s =
          answered ctx (destroy_machine cls ctx.machine_name) s

      abbrev pub destroyed :
          (Text → Text → Bool)
          → DestroyRequest
          → Result ClusterError ClusterSpec
          → redis.State
          → Result TaskError Bool × redis.State
      destroyed destroy_machine ctx (err e) s = (err (cluster_failed e), s)
      destroyed destroy_machine ctx (ok cluster) s =
          by_provider destroy_machine ctx (lookup cluster.provider file.providers) s

      unfoldable pub destroy_instance_task :
          (Text → Text → Bool) → DestroyRequest → redis.State → Result TaskError Bool × redis.State
      destroy_instance_task destroy_machine ctx s =
          destroyed destroy_machine ctx (get_cluster file ctx.cluster_name) s
