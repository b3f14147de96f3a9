-- ===== src/Sync/Resource/Defs.antt =====
-- include/cxxdes/sync/resource.hpp: a resource is a semaphore; the handle is a unit of it.
use libcxxdes.Base.{ℕ, Bool, true, false, Option, none, some, if◌then◌else◌}
use libcxxdes.Core.Token.{invalid_resource_handle}
use libcxxdes.Core.World.{World, Outcome, done, threw}
use libcxxdes.Sync.Progress.{Progress, waiting, finished}
use libcxxdes.Sync.Semaphore.{Semaphore, new_semaphore, up, down}

pub record Resource : Type 0 where
  pub sem : Semaphore

unfoldable pub new_resource : ℕ → Resource
unfolding new_semaphore
new_resource count = record { sem = new_semaphore count count }

-- `resource::handle`: the address of the resource, or null.
pub record Handle : Type 0 where
  pub x : Option ℕ

unfoldable pub valid : Handle → Bool
valid h = elim h.x [ none ↦ false | some r ↦ true ]

unfoldable pub move_assign : Handle → Handle → Handle × Handle
move_assign target other = (record { x = other.x }, record { x = target.x })

module _ {S : Type 0} where
  -- A round of `acquire` in coroutine `c`, on the resource at address `self`.
  unfoldable pub acquire :
      ℕ → ℕ → Resource → World S → Progress × Option Handle × Resource × World S
  unfolding down
  acquire self c r w =
      let (p, sem, v) = down c r.sem w in
      (
        p,
        elim p [ waiting ↦ none | finished ↦ some (record { x = some self }) ],
        record { sem = sem },
        v,
      )

  -- The first round of `handle::release`; the handle is null from here on. If it waits, its later
  -- rounds are those of `up`.
  unfoldable pub release :
      ℕ → Handle → Resource → World S → Outcome (Progress × Handle × Resource × World S)
  unfolding valid up
  release c h r w =
      if valid h
      then (let (p, sem, v) = up c r.sem w in
          done (p, record { x = none }, record { sem = sem }, v))
      else threw invalid_resource_handle (finished, h, r, w)
