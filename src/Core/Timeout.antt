-- ===== src/Core/Timeout.antt =====
-- include/cxxdes/core/impl/timeout.ipp
mod Defs
pub mod Schedule
unfoldable pub use Defs.*
