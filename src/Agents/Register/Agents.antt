-- ===== src/Agents/Register/Agents.antt =====
-- What the register shows after its operations.
use labfunctions.Prelude.{
  ◌≡◌, refl, Bool, true, false, not, ◌&&◌, ◌||◌, Option, none, some, if◌then◌else◌, arith,
}
use labfunctions.Text.{Text, teq, teq_refl, teq_comm, member}
use labfunctions.Dict.{found}
use labfunctions.Effects.{ok}
use labfunctions.Redis.{Redis}
use labfunctions.Agents.Types.{AgentNode}
use labfunctions.Agents.Register.{
  NodeJson, agent_key, agent_list, agent_clusters, cluster_key, register, unregister, remove, get,
  node_of,
}
use labfunctions.Agents.Register.Keys.{
  IsTyped, register-IsTyped, unregister-IsTyped, remove-IsTyped, key_laws, ne_of_teq,
  agent_key-list, agent_key-cluster,
}

module _ (redis : Redis) (json : NodeJson) where
  -- An agent is on the list of all agents, or on that of a cluster.
  abbrev pub listed : redis.State → Text → Bool
  listed s name = member name (redis.sinter s agent_list)

  abbrev pub in_cluster : redis.State → Text → Text → Bool
  in_cluster s cluster name = member name (redis.sinter s (cluster_key cluster))

  -- The members of a set key after each operation, where no string stands at the set keys.
  module _ (s : redis.State) (typed : IsTyped redis s) (j x : Text) where
    sinter-register :
        (node : AgentNode)
        → teq (agent_key node.name) j ≡ false
        → member x (redis.sinter (register redis json node s) j) ≡ (
            teq agent_list j && teq x node.name
            || (teq (cluster_key node.cluster) j && teq x node.name
                || (teq agent_clusters j && teq x node.cluster || member x (redis.sinter s j))))
    unfolding register
    sinter-register node other =
        let s₁ = redis.sadd s agent_clusters node.cluster in
        let s₂ = redis.sadd s₁ (cluster_key node.cluster) node.name in
        let s₃ = redis.set s₂ (agent_key node.name) (json.dumps node) in
        let free₃ : redis.get s₃ agent_list ≡ none =
          simp (redis.get-sadd, redis.get-set, key_laws) typed.list in
        let free₁ : redis.get s₁ (cluster_key node.cluster) ≡ none =
          simp redis.get-sadd (typed.cluster node.cluster) in
        rw (
          redis.sinter-sadd s₃ agent_list j node.name x free₃,
          redis.sinter-set s₂ (agent_key node.name) j (json.dumps node) (ne_of_teq _ _ other),
          redis.sinter-sadd s₁ (cluster_key node.cluster) j node.name x free₁,
          redis.sinter-sadd s agent_clusters j node.cluster x typed.clusters,
        )

    sinter-unregister :
        (node : AgentNode)
        → teq (agent_key node.name) j ≡ false
        → member x (redis.sinter (unregister redis json node s) j) ≡ (
            not (teq agent_list j && teq x node.name)
            && (not (teq (cluster_key node.cluster) j && teq x node.name)
                && member x (redis.sinter s j)))
    unfolding unregister
    sinter-unregister node other =
        let s₁ = redis.srem s (cluster_key node.cluster) node.name in
        let s₂ = redis.delete s₁ (agent_key node.name) in
        let free₂ : redis.get s₂ agent_list ≡ none =
          simp (redis.get-srem, redis.get-delete, key_laws) typed.list in
        rw (
          redis.sinter-srem s₂ agent_list j node.name x free₂,
          redis.sinter-delete s₁ (agent_key node.name) j (ne_of_teq _ _ other),
          redis.sinter-srem s (cluster_key node.cluster) j node.name x (typed.cluster node.cluster),
        )

    sinter-remove :
        (name : Text)
        → teq (agent_key name) j ≡ false
        → member x (redis.sinter (remove redis json name s) j)
          ≡ (not (teq agent_list j && teq x name) && member x (redis.sinter s j))
    unfolding remove
    sinter-remove name other = rw (
      redis.sinter-delete (redis.srem s agent_list name) (agent_key name) j (ne_of_teq _ _ other),
      redis.sinter-srem s agent_list j name x typed.list,
    )

  -- The strings of the agents after each operation.
  module _ (s : redis.State) (x : Text) where
    get-register :
        (node : AgentNode)
        → redis.get (register redis json node s) (agent_key x)
          ≡ (if teq node.name x then some (json.dumps node) else redis.get s (agent_key x))
    unfolding register
    get-register node = simp (redis.get-sadd, redis.get-set, key_laws)

    get-unregister :
        (node : AgentNode)
        → redis.get (unregister redis json node s) (agent_key x)
          ≡ (if teq node.name x then none else redis.get s (agent_key x))
    unfolding unregister
    get-unregister node = simp (redis.get-srem, redis.get-delete, key_laws)

    get-remove :
        (name : Text)
        → redis.get (remove redis json name s) (agent_key x)
          ≡ (if teq name x then none else redis.get s (agent_key x))
    unfolding remove
    get-remove name = simp (redis.get-srem, redis.get-delete, key_laws)

  get-node_of :
      (name : Text) (s : redis.State)
      → get redis json name s ≡ node_of redis json (redis.get s (agent_key name))
  unfolding get
  get-node_of name s = refl

  node_of-dumps : (node : AgentNode) → node_of redis json (some (json.dumps node)) ≡ ok (some node)
  unfolding node_of
  node_of-dumps node = rw (json.dumps-filled node, json.loads-dumps node)

  node_of-none : node_of redis json none ≡ ok none
  unfolding node_of
  node_of-none = refl

  node_of-if :
      (b : Bool) (u v : Option Text)
      → node_of redis json (if b then u else v)
        ≡ (if b then node_of redis json u else node_of redis json v)
  node_of-if true u v = refl
  node_of-if false u v = refl

  -- The list of agents names exactly those that have a record.
  abbrev pub IsConsistent : redis.State → Type 0
  IsConsistent s = (x : Text) → listed s x ≡ found (redis.get s (agent_key x))

  -- Every operation of the register keeps its keys apart, and keeps the list of agents in step with
  -- the records.
  pub register-IsConsistent :
      (node : AgentNode) (name : Text) (s : redis.State)
      → IsTyped redis s
      → IsConsistent s
      → (IsTyped redis (register redis json node s) × IsConsistent (register redis json node s))
        × (IsTyped redis (unregister redis json node s)
            × IsConsistent (unregister redis json node s))
        × (IsTyped redis (remove redis json name s) × IsConsistent (remove redis json name s))
  register-IsConsistent node name s typed same = (
    (
      register-IsTyped redis json node name typed,
      λ x.
          rw
            (
              sinter-register s typed agent_list x node (agent_key-list node.name),
              get-register s x node,
            )
            (simp key_laws (ground (arith, same x, teq_comm x node.name))),
    ),
    (
      unregister-IsTyped redis json node name typed,
      λ x.
          rw
            (
              sinter-unregister s typed agent_list x node (agent_key-list node.name),
              get-unregister s x node,
            )
            (simp key_laws (ground (arith, same x, teq_comm x node.name))),
    ),
    (
      remove-IsTyped redis json node name typed,
      λ x.
          rw (sinter-remove s typed agent_list x name (agent_key-list name), get-remove s x name)
            (simp key_laws (ground (arith, same x, teq_comm x name))),
    ),
  )

  -- After `register` the agent is found by its name with all its fields, on the list of its cluster
  -- and on the list of all; what the register shows of other agents is unchanged.
  pub get-register_lem :
      (node : AgentNode) (x cluster : Text) (s : redis.State)
      → IsTyped redis s
      → (get redis json x (register redis json node s)
          ≡ (if teq node.name x then ok (some node) else get redis json x s))
        × (listed (register redis json node s) x ≡ (teq node.name x || listed s x))
        × (in_cluster (register redis json node s) cluster x
            ≡ (teq node.cluster cluster && teq node.name x || in_cluster s cluster x))
  get-register_lem node x cluster s typed = (
    rw (
      get-node_of x (register redis json node s),
      get-register s x node,
      node_of-if,
      node_of-dumps,
      get-node_of x s,
    ),
    rw (sinter-register s typed agent_list x node (agent_key-list node.name))
        (simp key_laws (ground (arith, teq_comm x node.name))),
    rw (sinter-register s typed (cluster_key cluster) x node (agent_key-cluster node.name cluster))
        (simp key_laws (ground (arith, teq_comm x node.name))),
  )

  -- `unregister` undoes `register`: the agent is on no list of its cluster or of all and has no
  -- record, and what the register shows of other agents is as before.
  pub unregister-register :
      (node : AgentNode) (x cluster : Text) (s : redis.State)
      → IsTyped redis s
      → (get redis json x (unregister redis json node (register redis json node s))
          ≡ (if teq node.name x then ok none else get redis json x s))
        × (listed (unregister redis json node (register redis json node s)) x
            ≡ (not (teq node.name x) && listed s x))
        × (in_cluster (unregister redis json node (register redis json node s)) cluster x
            ≡ (not (teq node.cluster cluster && teq node.name x) && in_cluster s cluster x))
  unregister-register node x cluster s typed =
      let typed' = register-IsTyped redis json node x typed in
      let s' = register redis json node s in
      (
        rw
            (
              get-node_of x (unregister redis json node s'),
              get-unregister s' x node,
              get-register s x node,
              node_of-if,
              node_of-if,
              node_of-none,
              get-node_of x s,
            )
            (ground arith),
        rw (sinter-unregister s' typed' agent_list x node (agent_key-list node.name)) (
            rw ((get-register_lem node x cluster s typed).1)
              (simp key_laws (ground (arith, teq_comm x node.name)))),
        rw
            (sinter-unregister s' typed' (cluster_key cluster) x node
              (agent_key-cluster node.name cluster))
            (rw ((get-register_lem node x cluster s typed).2)
              (simp key_laws (ground (arith, teq_comm x node.name)))),
      )

  -- `remove` takes the record and the name on the list of all away, and leaves the name on the list
  -- of its cluster: an agent that was registered and removed by name is still listed there.
  pub remove-register :
      (node : AgentNode) (s : redis.State)
      → IsTyped redis s
      → (get redis json node.name (remove redis json node.name (register redis json node s))
          ≡ ok none)
        × (listed (remove redis json node.name (register redis json node s)) node.name ≡ false)
        × (in_cluster
              (remove redis json node.name (register redis json node s))
              node.cluster
              node.name
            ≡ true)
  remove-register node s typed =
      let typed' = register-IsTyped redis json node node.name typed in
      let s' = register redis json node s in
      (
        rw (get-node_of node.name, get-remove s' node.name node.name, teq_refl node.name)
            node_of-none,
        rw (sinter-remove s' typed' agent_list node.name node.name (agent_key-list node.name))
            (simp key_laws),
        rw
            (sinter-remove s' typed' (cluster_key node.cluster) node.name node.name
              (agent_key-cluster node.name node.cluster))
            (rw ((get-register_lem node node.name node.cluster s typed).2) (simp key_laws)),
      )
