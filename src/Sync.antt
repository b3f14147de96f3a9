-- ===== src/Sync.antt =====
-- include/cxxdes/sync: the synchronization primitives.
pub mod Progress
pub mod Event
pub mod Semaphore
pub mod Mutex
pub mod Queue
pub mod Resource
pub mod Program
