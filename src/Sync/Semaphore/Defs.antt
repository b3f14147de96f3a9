-- ===== src/Sync/Semaphore/Defs.antt =====
-- include/cxxdes/sync/semaphore.hpp: `up` and `down` by their rounds.
use libcxxdes.Base.{ℕ, ◌+◌, ◌-◌, if◌then◌else◌, ltb}
use libcxxdes.Core.World.{World}
use libcxxdes.Sync.Progress.{Progress, waiting, finished}
use libcxxdes.Sync.Event.{Event, new_event, wake, wait_in}

pub record Semaphore : Type 0 where
  pub value : ℕ
  pub max : ℕ
  pub event : Event

unfoldable pub new_semaphore : ℕ → ℕ → Semaphore
new_semaphore value max = record { value = value; max = max; event = new_event }

module _ {S : Type 0} where
  -- `co_await event_.wait()` and `co_await event_.wake()`
  unfoldable pub wait_on : ℕ → Semaphore → World S → Progress × Semaphore × World S
  wait_on c s w = let (evt, v) = wait_in c s.event w in (waiting, record s { event = evt }, v)

  unfoldable pub wake_all : Semaphore → World S → Progress × Semaphore × World S
  unfolding wake
  wake_all s w = let (evt, v) = wake s.event w in (finished, record s { event = evt }, v)

  unfoldable pub up : ℕ → Semaphore → World S → Progress × Semaphore × World S
  unfolding wait_on wake_all
  up c s w =
      if ltb s.value s.max then wake_all (record s { value = s.value + 1 }) w else wait_on c s w

  unfoldable pub down : ℕ → Semaphore → World S → Progress × Semaphore × World S
  unfolding wait_on wake_all
  down c s w =
      if ltb 0 s.value then wake_all (record s { value = s.value - 1 }) w else wait_on c s w
