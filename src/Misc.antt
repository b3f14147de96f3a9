-- ===== src/Misc.antt =====
-- include/cxxdes/misc
pub mod Time
pub mod RefCount
