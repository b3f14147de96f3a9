-- ===== src/Sync/Event.antt =====
-- include/cxxdes/sync/event.hpp
mod Defs
pub mod Laws
pub mod Waiters
unfoldable pub use Defs.*
