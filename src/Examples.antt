-- ===== src/Examples.antt =====
-- src/examples and src/tests as bodies of coroutines; what they print is a list of lines.
pub mod Base
mod Exceptions
pub mod Values
mod Processes
pub mod Subroutines
pub mod Depth
mod Priorities
mod ControlFlow
pub mod Recursion
pub mod Synced
mod Sharing
mod Mixed
pub mod Endless
pub mod Ticking
mod SharingRuns
mod MixedRuns
mod Runs
mod Tests
