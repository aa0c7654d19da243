-- ===== src/Agents.antt =====
-- labfunctions/control_plane: the agents that run workers, and the register that they keep in Redis.
mod Tests
pub mod Types
pub mod Register
pub mod Workers
