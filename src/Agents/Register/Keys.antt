-- ===== src/Agents/Register/Keys.antt =====
-- The keys of the register do not meet, so no string stands where it keeps a set.
use labfunctions.Prelude.{◌≡◌, ◌≢◌, refl, false, none, arith}
use labfunctions.Text.{Text, codes, teq, teq_refl, teq_iff, teq-append_left}
use labfunctions.Redis.{Redis}
use labfunctions.Agents.Types.{AgentNode}
use labfunctions.Agents.Register.{
  NodeJson, agent_key, agent_list, agent_clusters, cluster_key, register, unregister, remove,
}

pub agent_key-list : (n : Text) → teq (agent_key n) agent_list ≡ false
unfolding teq
agent_key-list n = refl

pub agent_key-clusters : (n : Text) → teq (agent_key n) agent_clusters ≡ false
unfolding teq
agent_key-clusters n = refl

pub agent_key-cluster : (n c : Text) → teq (agent_key n) (cluster_key c) ≡ false
unfolding teq
agent_key-cluster n c = refl

pub cluster_key-list : (c : Text) → teq (cluster_key c) agent_list ≡ false
unfolding teq
cluster_key-list c = refl

pub clusters-list : teq agent_clusters agent_list ≡ false
unfolding teq
clusters-list = refl

pub clusters-cluster : (c : Text) → teq agent_clusters (cluster_key c) ≡ false
unfolding teq
clusters-cluster c = refl

pub list-cluster : (c : Text) → teq agent_list (cluster_key c) ≡ false
unfolding teq
list-cluster c = refl

pub same_agent : (n m : Text) → teq (agent_key n) (agent_key m) ≡ teq n m
unfolding teq
same_agent n m = refl

pub same_cluster : (c d : Text) → teq (cluster_key c) (cluster_key d) ≡ teq c d
unfolding teq
same_cluster c d = refl

pub ne_of_teq : (s t : Text) → teq s t ≡ false → s ≢ t
ne_of_teq s t h e = ground (arith, teq_iff s t)

pub ruleset key_laws = (
  agent_key-list, agent_key-clusters, agent_key-cluster, cluster_key-list, clusters-list,
  clusters-cluster, list-cluster, same_agent, same_cluster, teq_refl,
)

module _ (redis : Redis) where
  -- The keys of the sets hold no string.
  pub record IsTyped (s : redis.State) : Type 0 where
    pub list : redis.get s agent_list ≡ none
    pub clusters : redis.get s agent_clusters ≡ none
    pub cluster : (c : Text) → redis.get s (cluster_key c) ≡ none

  module _ (json : NodeJson) (node : AgentNode) (name : Text) {s : redis.State}
      (typed : IsTyped s) where
    pub register-IsTyped : IsTyped (register redis json node s)
    unfolding register
    register-IsTyped = record {
      list = simp (redis.get-sadd, redis.get-set, key_laws) typed.list;
      clusters = simp (redis.get-sadd, redis.get-set, key_laws) typed.clusters;
      cluster = λ c. simp (redis.get-sadd, redis.get-set, key_laws) (typed.cluster c);
    }

    pub unregister-IsTyped : IsTyped (unregister redis json node s)
    unfolding unregister
    unregister-IsTyped = record {
      list = simp (redis.get-srem, redis.get-delete, key_laws) typed.list;
      clusters = simp (redis.get-srem, redis.get-delete, key_laws) typed.clusters;
      cluster = λ c. simp (redis.get-srem, redis.get-delete, key_laws) (typed.cluster c);
    }

    pub remove-IsTyped : IsTyped (remove redis json name s)
    unfolding remove
    remove-IsTyped = record {
      list = simp (redis.get-srem, redis.get-delete, key_laws) typed.list;
      clusters = simp (redis.get-srem, redis.get-delete, key_laws) typed.clusters;
      cluster = λ c. simp (redis.get-srem, redis.get-delete, key_laws) (typed.cluster c);
    }
