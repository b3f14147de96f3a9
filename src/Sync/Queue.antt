-- ===== src/Sync/Queue.antt =====
-- include/cxxdes/sync/queue.hpp
mod Defs
pub mod Laws
pub mod Channel
unfoldable pub use Defs.*
