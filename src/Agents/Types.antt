-- ===== src/Agents/Types.antt =====
-- labfunctions/types/agent.py.
use labfunctions.Prelude.{ℕ, List, Option}
use labfunctions.Text.{Text}

pub record AgentNode : Type 0 where
  pub ip_address : Text
  pub name : Text
  pub pid : Text
  pub qnames : List Text
  pub cluster : Text
  pub workers : List Text
  pub birthday : ℕ
  pub machine_id : Option Text

pub record AgentConfig : Type 0 where
  pub redis_dsn : Text
  pub cluster : Text
  pub qnames : List Text
  pub ip_address : Text
  pub machine_id : Text
  pub heartbeat_ttl : ℕ
  pub heartbeat_check_every : ℕ
  pub agent_name : Option Text
  pub workers_n : ℕ
  pub max_jobs : ℕ
