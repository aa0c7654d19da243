-- ===== src/Types.antt =====
-- labfunctions/types: the records that the parts of the program pass to one another. `V` is the
-- type of the values in a dictionary of parameters.
pub mod Core
pub mod Runtimes
pub mod Projects
