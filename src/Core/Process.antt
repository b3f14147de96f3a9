-- ===== src/Core/Process.antt =====
-- Coroutines of a program: bodies that await, and what the C++ coroutine machinery does with them
-- through the promise types of include/cxxdes/core/impl.
mod Frames
mod Drive
mod Awaits
mod Programs
pub mod Calls
pub mod Sequence
pub mod Clock
unfoldable pub use Frames.*
unfoldable pub use Drive.*
unfoldable pub use Awaits.*
unfoldable pub use Programs.*
