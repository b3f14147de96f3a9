-- ===== src/Core/Coroutine.antt =====
-- include/cxxdes/core/impl/coroutine_data.ipp, impl/coroutine.ipp, and the members of
-- `coroutine_data` that impl/environment.ipp defines.
mod Data
mod Handle
mod Accessors
mod Stack
pub mod Calls
pub mod Binding
pub mod Completion
pub mod Awaiting
unfoldable pub use Data.*
unfoldable pub use Handle.*
unfoldable pub use Accessors.*
unfoldable pub use Stack.*
