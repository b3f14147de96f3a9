-- ===== src/Core/Environment.antt =====
-- include/cxxdes/core/impl/environment.ipp
mod Defs
pub mod Order
pub mod Clock
pub mod Loops
pub mod Agenda
unfoldable pub use Defs.*
