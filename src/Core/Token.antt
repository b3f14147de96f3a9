-- ===== src/Core/Token.antt =====
-- include/cxxdes/core/impl/token.ipp and impl/defs.ipp.
mod Defs
pub mod Order
unfoldable pub use Defs.*
