-- ===== src/Misc/RefCount.antt =====
-- include/cxxdes/misc/reference_counted.hpp
mod Defs
pub mod Holders
pub mod Laws
unfoldable pub use Defs.*
