-- ===== src/Ident.antt =====
-- Identifiers: execution ids (labfunctions/executors/execid.py) and time-ordered ids
-- (labfunctions/hashes.py).
mod Tests
pub mod ExecId
pub mod Hash96
