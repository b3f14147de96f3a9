-- ===== src/Sync/Semaphore.antt =====
-- include/cxxdes/sync/semaphore.hpp
mod Defs
pub mod Laws
unfoldable pub use Defs.*
