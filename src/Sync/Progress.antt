-- ===== src/Sync/Progress.antt =====
-- How a round of an operation that loops around `co_await event_.wait()` ends. A subroutine of
-- include/cxxdes/sync runs in its caller without a pause between two waits; a round is entered by
-- the call, and again whenever the event has resumed the caller.
pub data Progress : Type 0 where
  waiting finished : Progress
