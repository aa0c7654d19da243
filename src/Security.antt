-- ===== src/Security.antt =====
-- labfunctions/security: scopes, tokens and the authentication object.
pub mod Scopes
pub mod Types
pub mod Store
pub mod Auth
pub mod Samples
mod Tests
