-- ===== src/Core.antt =====
-- include/cxxdes/core: tokens, the environment and its scheduler, coroutines, compositions.
pub mod Token
pub mod Queue
pub mod World
pub mod Composition
pub mod Schedule
pub mod Environment
pub mod Coroutine
pub mod Lifetime
pub mod Timeout
pub mod Simulation
pub mod Process
