-- ===== src/Notebooks.antt =====
-- labfunctions/notebooks: the execution context of a notebook.
mod Tests
pub mod Context
pub mod Globals
