-- ===== src/Text.antt =====
-- Text as a list of code points, with the operations of Python's `str` that the program calls:
-- equality, `split`, `rsplit`, `startswith`, `strip` and the decimal print of `str(int)`.
mod Defs
mod Equality
pub mod Split
pub mod Strip
pub mod Decimal
pub mod Members
pub mod Newlines
unfoldable pub use Defs.*
pub use Equality.*
