-- ===== src/Client.antt =====
-- labfunctions/client: the side of a user or an agent that talks to the API server.
pub mod AuthFlow
pub mod LabState
pub mod Workflows
pub mod Events
mod Tests
