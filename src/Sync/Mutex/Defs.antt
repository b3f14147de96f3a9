-- ===== src/Sync/Mutex/Defs.antt =====
-- include/cxxdes/sync/mutex.hpp: `acquire` by its rounds, and the handle.
use libcxxdes.Base.{ℕ, Bool, true, false, Option, none, some, if◌then◌else◌}
use libcxxdes.Core.Token.{invalid_mutex_handle}
use libcxxdes.Core.World.{World, Outcome, done, threw}
use libcxxdes.Sync.Progress.{Progress, waiting, finished}
use libcxxdes.Sync.Event.{Event, new_event, wake, wait_in}

pub record Mutex : Type 0 where
  pub owned : Bool
  pub event : Event

abbrev pub new_mutex : Mutex
new_mutex = record { owned = false; event = new_event }

-- `mutex::handle`: the address of the mutex, or null.
pub record Handle : Type 0 where
  pub x : Option ℕ

unfoldable pub valid : Handle → Bool
valid h = elim h.x [ none ↦ false | some m ↦ true ]

-- `operator=(handle &&)`: the two handles swap. Construction swaps with a null handle.
unfoldable pub move_assign : Handle → Handle → Handle × Handle
move_assign target other = (record { x = other.x }, record { x = target.x })

unfoldable pub move_construct : Handle → Handle × Handle
unfolding move_assign
move_construct other = move_assign (record { x = none }) other

unfoldable pub is_acquired : Mutex → Bool
is_acquired m = m.owned

module _ {S : Type 0} where
  -- A round of `acquire` in coroutine `c`, on the mutex at address `self`.
  unfoldable pub acquire : ℕ → ℕ → Mutex → World S → Progress × Option Handle × Mutex × World S
  acquire self c m w =
      if m.owned
      then (let (evt, v) = wait_in c m.event w in (waiting, none, record m { event = evt }, v))
      else (finished, some (record { x = some self }), record m { owned = true }, w)

  -- `handle::release`
  unfoldable pub release : Handle → Mutex → World S → Outcome (Handle × Mutex × World S)
  unfolding valid wake
  release h m w =
      if valid h
      then (let (evt, v) = wake m.event w in
          done (record { x = none }, record { owned = false; event = evt }, v))
      else threw invalid_mutex_handle (h, m, w)
