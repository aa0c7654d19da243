-- ===== src/Agents/Register.antt =====
-- labfunctions/control_plane/register.py, class `AgentRegister`: the keys of an agent and the
-- operations on them. A pipeline is one transaction, so its commands are composed. `AgentNode.json`
-- and its inverse are the parameter `json`.
pub mod Keys
pub mod Agents
use labfunctions.Prelude.{
  ◌≡◌, Bool, true, false, List, [], ◌∷◌, ◌++◌, Option, none, some, if◌then◌else◌,
}
use labfunctions.Text.{Text, codes, is_empty}
use labfunctions.Effects.{Result, ok, err}
use labfunctions.Redis.{Redis}
use labfunctions.Agents.Types.{AgentNode}

pub record NodeJson : Type 0 where
  pub dumps : AgentNode → Text
  pub loads : Text → Option AgentNode
  pub loads-dumps : (node : AgentNode) → loads (dumps node) ≡ some node
  -- The text of an object is not empty.
  pub dumps-filled : (node : AgentNode) → is_empty (dumps node) ≡ false

pub data RegisterError : Type 0 where
  bad_json : RegisterError

abbrev pub agent_key : Text → Text
agent_key name = codes "nb.ag." ++ name

abbrev pub agent_list : Text
agent_list = codes "nb.agents"

abbrev pub agent_clusters : Text
agent_clusters = codes "nb.clusters"

abbrev pub cluster_key : Text → Text
cluster_key cluster = codes "nb.cluster." ++ cluster

-- f"{self.cluster}.{qname}"
unfoldable pub qname : Text → Text → Text
qname cluster q = cluster ++ b'.' ∷ q

module _ (redis : Redis) (json : NodeJson) where
  unfoldable pub register : AgentNode → redis.State → redis.State
  register node s =
      let s = redis.sadd s agent_clusters node.cluster in
      let s = redis.sadd s (cluster_key node.cluster) node.name in
      let s = redis.set s (agent_key node.name) (json.dumps node) in
      redis.sadd s agent_list node.name

  unfoldable pub unregister : AgentNode → redis.State → redis.State
  unregister node s =
      let s = redis.srem s (cluster_key node.cluster) node.name in
      let s = redis.delete s (agent_key node.name) in redis.srem s agent_list node.name

  -- `if jdata:` fails for a missing key and for an empty text.
  unfoldable pub node_of : Option Text → Result RegisterError (Option AgentNode)
  node_of none = ok none
  node_of (some jdata) =
      if is_empty jdata
      then ok none
      else elim (json.loads jdata) [ none ↦ err bad_json | some node ↦ ok (some node) ]

  unfoldable pub get : Text → redis.State → Result RegisterError (Option AgentNode)
  get name s = node_of (redis.get s (agent_key name))

  unfoldable pub remove : Text → redis.State → redis.State
  remove agent s = let s = redis.srem s agent_list agent in redis.delete s (agent_key agent)

  abbrev query : Option Text → Text
  query none = agent_list
  query (some cluster) = if is_empty cluster then agent_list else cluster_key cluster

  unfoldable pub list_agents : Option Text → redis.State → List Text
  list_agents from_cluster s = redis.sinter s (query from_cluster)

  unfoldable pub list_clusters : redis.State → List Text
  list_clusters s = redis.sinter s agent_clusters
