-- ===== src/Sync/Program.antt =====
-- Bodies of coroutines that use include/cxxdes/sync: the objects as variables of the program,
-- `wait` and `wake` as awaitables, and the subroutines of mutex, semaphore, queue and resource as
-- bodies.
mod Store
mod Sets
mod Awaits
mod Bodies
mod Operations
pub mod Rounds
mod Ends
mod Shapes
mod Wakes
pub mod Refinement
pub mod Handles
pub mod Clock
unfoldable pub use Store.*
unfoldable pub use Awaits.*
unfoldable pub use Bodies.*
pub use Operations.*
