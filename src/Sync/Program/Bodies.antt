-- ===== src/Sync/Program/Bodies.antt =====
-- The subroutines of include/cxxdes/sync/mutex.hpp, semaphore.hpp, queue.hpp and resource.hpp as
-- bodies.
use libcxxdes.Base.{
  ℕ, ◌+◌, ◌-◌, Bool, true, false, Option, none, some, List, [], ◌∷◌, ◌++◌, not, ltb, if◌then◌else◌,
}
use libcxxdes.Base.Int.{pos}
use libcxxdes.Core.Token.{inherit, invalid_mutex_handle, invalid_resource_handle}
use libcxxdes.Core.Process.{
  Result, returned, raised, Body, co_return, co_throw, act, look, loop, await_then, inline_then,
}
use libcxxdes.Sync.Event.{wait}
use libcxxdes.Sync.Queue.{can_put}
use libcxxdes.Sync.Program.Store.{
  Objects, Shared, SemaphoreAt, resource_at, EventAt, mutex_at, queue_at, semaphore_event,
  semaphore_of, set_semaphore, set_mutex, set_queue,
}
use libcxxdes.Sync.Program.Awaits.{EventCall, waits, wakes}

-- The conditions of the loops.
abbrev pub is_free : ℕ → Objects → Bool
is_free m o = not (o.mutexes m).owned

abbrev pub can_up : SemaphoreAt → Objects → Bool
can_up s o = ltb (semaphore_of s o).value (semaphore_of s o).max

abbrev pub can_down : SemaphoreAt → Objects → Bool
can_down s o = ltb 0 (semaphore_of s o).value

abbrev pub has_room : ℕ → Objects → Bool
has_room q o = can_put (o.queues q)

abbrev pub has_item : ℕ → Objects → Bool
has_item q o = elim (o.queues q).items [ [] ↦ false | a ∷ rest ↦ true ]

-- `co_await event_.wait()`
abbrev pub wait_on : {C : Type 0} → (EventCall → C) → EventAt → C
wait_on await e = await (waits e (wait (pos 0) inherit))

module _ {C V X : Type 0} where
  unfoldable pub on_objects : (Objects → Objects) → Body C V (Shared X) → Body C V (Shared X)
  on_objects f b = act (λ t g. record g { objects = f g.objects }) b

-- `await` makes an awaitable of a call on an event.
module _ {C V X : Type 0} (await : EventCall → C) where
  -- `while (!ready) co_await event_.wait();`, and what follows.
  abbrev pub wait_round : (Objects → Bool) → EventAt → ℕ → Body C V (Shared X)
  wait_round ready e s = look (λ t g.
      if ready g.objects
      then co_return none
      else await_then (wait_on await e) (λ v. co_return (some 0)))

  abbrev pub behind_loop : Body C V (Shared X) → Result (Option ℕ) → Body C V (Shared X)
  behind_loop b r = elim r [ returned u ↦ b | raised e ↦ co_throw e ]

  unfoldable pub wait_until : (Objects → Bool) → EventAt → Body C V (Shared X) → Body C V (Shared X)
  unfolding await_then
  wait_until ready e b = loop (wait_round ready e) 0 (behind_loop b)

  -- `co_await event_.wake();`, and what follows.
  unfoldable pub wake_then : EventAt → Body C V (Shared X) → Body C V (Shared X)
  unfolding await_then
  wake_then e b = await_then (await (wakes e)) (λ v. b)

  -- `mutex::acquire`, which returns the mutex's address: behind its loop, and the whole.
  abbrev pub behind_acquire : ℕ → Body C V (Shared X)
  behind_acquire m =
      on_objects (λ o. set_mutex m (record (o.mutexes m) { owned = true }) o) (co_return (some m))

  unfoldable pub acquire_body : ℕ → Body C V (Shared X)
  unfolding wait_until on_objects
  acquire_body m = wait_until (is_free m) (mutex_at m) (behind_acquire m)

  -- `mutex::handle::release`: the handle that is cleared is a variable of the body.
  unfoldable pub release_body : Option ℕ → Body C V (Shared X)
  unfolding wake_then on_objects
  release_body none = co_throw invalid_mutex_handle
  release_body (some m) =
      on_objects (λ o. set_mutex m (record (o.mutexes m) { owned = false }) o)
        (wake_then (mutex_at m) (co_return none))

  -- `semaphore::up` and `semaphore::down`
  abbrev pub behind_up : SemaphoreAt → Body C V (Shared X)
  behind_up s =
      on_objects
        (λ o.
          set_semaphore s (record (semaphore_of s o) { value = (semaphore_of s o).value + 1 }) o)
        (wake_then (semaphore_event s) (co_return none))

  unfoldable pub up_body : SemaphoreAt → Body C V (Shared X)
  unfolding wait_until wake_then on_objects
  up_body s = wait_until (can_up s) (semaphore_event s) (behind_up s)

  abbrev pub behind_down : SemaphoreAt → Body C V (Shared X)
  behind_down s =
      on_objects
        (λ o.
          set_semaphore s (record (semaphore_of s o) { value = (semaphore_of s o).value - 1 }) o)
        (wake_then (semaphore_event s) (co_return none))

  unfoldable pub down_body : SemaphoreAt → Body C V (Shared X)
  unfolding wait_until wake_then on_objects
  down_body s = wait_until (can_down s) (semaphore_event s) (behind_down s)

  -- `queue::put` and `queue::pop`
  abbrev pub behind_put : ℕ → ℕ → Body C V (Shared X)
  behind_put q a =
      on_objects (λ o. set_queue q (record (o.queues q) { items = (o.queues q).items ++ a ∷ [] }) o)
        (wake_then (queue_at q) (co_return none))

  unfoldable pub put_body : ℕ → ℕ → Body C V (Shared X)
  unfolding wait_until wake_then on_objects
  put_body q a = wait_until (has_room q) (queue_at q) (behind_put q a)

  -- `std::move(q_.front())`, `q_.pop()`, and the wake
  abbrev pub take_front : ℕ → List ℕ → Body C V (Shared X)
  take_front q items = elim items [
    | [] ↦ co_return none
    | a ∷ rest ↦
        on_objects (λ o. set_queue q (record (o.queues q) { items = rest }) o)
          (wake_then (queue_at q) (co_return (some a)))
  ]

  unfoldable pub pop_body : ℕ → Body C V (Shared X)
  unfolding wait_until wake_then on_objects
  pop_body q =
      wait_until (has_item q) (queue_at q) (look (λ t g. take_front q (g.objects.queues q).items))

  -- `resource::acquire`, which returns the resource's address, and `resource::handle::release`
  unfoldable pub acquire_unit_body : ℕ → Body C V (Shared X)
  unfolding down_body inline_then
  acquire_unit_body r = inline_then (down_body (resource_at r)) (λ u. co_return (some r))

  unfoldable pub release_unit_body : Option ℕ → Body C V (Shared X)
  unfolding up_body
  release_unit_body none = co_throw invalid_resource_handle
  release_unit_body (some r) = up_body (resource_at r)
