-- ===== src/Misc/Time.antt =====
-- include/cxxdes/misc/time.hpp
mod Quantity
pub mod Rational
pub mod Narrowing
mod Expr
pub mod Evaluation
unfoldable pub use Quantity.*
unfoldable pub use Expr.*
