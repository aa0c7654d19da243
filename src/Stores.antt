-- ===== src/Stores.antt =====
-- labfunctions/io and the loops over streams.
mod Tests
pub mod Memory
pub mod Chunks
pub mod Files
pub mod Http
pub mod Local
pub mod Runs
