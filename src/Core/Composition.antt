-- ===== src/Core/Composition.antt =====
-- include/cxxdes/core/impl/any_of.ipp: `all_of` and `any_of`.
mod Handler
mod Base
pub mod Firing
pub mod Readiness
unfoldable pub use Handler.*
unfoldable pub use Base.*
