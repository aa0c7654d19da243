-- ===== src/Utils.antt =====
-- labfunctions/utils.py: the functions on texts and numbers.
mod Tests
pub mod Filename
pub mod FormatBytes
