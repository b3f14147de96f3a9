-- ===== src/Sync/Resource.antt =====
-- include/cxxdes/sync/resource.hpp
mod Defs
pub mod Laws
unfoldable pub use Defs.*
