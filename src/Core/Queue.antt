-- ===== src/Core/Queue.antt =====
-- `std::priority_queue`, as include/cxxdes/core/impl/environment.ipp uses it.
mod Interface
pub mod Selection
pub use Interface.*
