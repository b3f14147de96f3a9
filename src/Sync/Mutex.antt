-- ===== src/Sync/Mutex.antt =====
-- include/cxxdes/sync/mutex.hpp
mod Defs
pub mod Laws
unfoldable pub use Defs.*
