-- ===== src/Tests.antt =====
-- Small runs of the definitions, and the theorems at concrete inputs.
mod Worlds
mod Time
mod Memory
mod Lifetime
mod Scheduler
mod Coroutine
mod Composition
mod Sync
mod Process
mod Program
