-- ===== src/Core/Lifetime.antt =====
-- include/cxxdes/core/impl/coroutine.ipp and impl/coroutine_data.ipp: who owns a coroutine.
mod Defs
mod Pointers
pub mod Owned
pub mod Operations
mod Starts
pub mod Laws
unfoldable pub use Defs.*
