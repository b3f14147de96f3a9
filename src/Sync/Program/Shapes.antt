-- ===== src/Sync/Program/Shapes.antt =====
-- The subroutines of include/cxxdes/sync as a loop and what is behind it, and the rounds in which
-- it waits.
use mathlib.Core.Path.{fun_ext}
use libcxxdes.Sync.Resource
use libcxxdes.Sync.Program.Bodies.{wait_round, behind_loop, acquire_unit_body}
use libcxxdes.Core.Process.{raised, loop, inline_then}
use libcxxdes.Sync.Semaphore.{Semaphore}
use libcxxdes.Base.{ℕ, arith, ◌≡◌, refl, ap, Bool, false, Option, none, some}
use libcxxdes.Core.World.{World}
use libcxxdes.Core.Process.{Result, returned, co_return, look, inline}
use libcxxdes.Sync.Progress.{Progress, waiting, finished}
use libcxxdes.Sync.Event.{wait_in}
use libcxxdes.Sync.Semaphore.{Semaphore}
use libcxxdes.Sync.Program.Store.{
  Objects, EventAt, semaphore_event, event_of, set_event, resource_at, semaphore_of, set_semaphore,
}
use libcxxdes.Sync.Program.Ends.{acquire-waits, up-waits, down-waits, put-waits, pop-waits}
use libcxxdes.Sync.Program.Awaits.{on_event}
use libcxxdes.Sync.Program.Operations.{
  Operation, acquire, up, down, put, pop, operation_body, event_for, Round, round, of_acquire,
  of_acquire_unit, acquire_unit, of_semaphore, of_put, of_pop,
}
use libcxxdes.Sync.Program.Bodies.{
  wait_until, acquire_body, up_body, down_body, put_body, pop_body, is_free, behind_acquire,
  behind_up, behind_down, behind_put, take_front, can_up, can_down, has_room, has_item,
}
use libcxxdes.Sync.Program.Rounds.{SharedProgram, SharedBody}

-- What the loop of the operation waits for.
abbrev pub is_ready : Operation → Objects → Bool
is_ready (acquire m) = is_free m
is_ready (acquire_unit r) = can_down (resource_at r)
is_ready (up s) = can_up s
is_ready (down s) = can_down s
is_ready (put q a) = has_room q
is_ready (pop q) = has_item q

module _ {A X : Type 0} where
  -- What is behind the loop.
  abbrev pub behind : Operation → SharedBody A X
  behind (acquire m) = behind_acquire on_event m
  behind (acquire_unit r) =
      inline_then (behind_down on_event (resource_at r)) (λ u. co_return (some r))
  behind (up s) = behind_up on_event s
  behind (down s) = behind_down on_event s
  behind (put q a) = behind_put on_event q a
  behind (pop q) = look (λ t g. take_front on_event q (g.objects.queues q).items)

  pub operation_body_lem :
      (op : Operation)
      → operation_body on_event op ≡ wait_until on_event (is_ready op) (event_for op) (behind op)
  unfolding acquire_body acquire_unit_body up_body down_body put_body pop_body inline_then inline
      wait_until
  operation_body_lem (acquire m) = refl
  operation_body_lem (acquire_unit r) =
      ap (loop (wait_round on_event (can_down (resource_at r)) (semaphore_event (resource_at r))) 0)
        (fun_ext by_result)
    where
      by_result :
          (x : Result (Option ℕ))
          → inline_then
              (behind_loop on_event (behind_down on_event (resource_at r)) x)
              (λ u. co_return (some r))
            ≡ behind_loop on_event (behind (acquire_unit r)) x
      by_result (returned u) = refl
      by_result (raised e) = refl
  operation_body_lem (up s) = refl
  operation_body_lem (down s) = refl
  operation_body_lem (put q a) = refl
  operation_body_lem (pop q) = refl

  abbrev pub waiting_round :
      EventAt → ℕ → Objects → World (SharedProgram A X) → Round (SharedProgram A X)
  waiting_round e c o w =
      let (evt, v) = wait_in c (event_of e o) w in
      record { progress = waiting; value = none; left = set_event e evt o; world = v }

  -- A round of the acquisition of a unit, by that of `down`.
  abbrev pub of_unit_down :
      ℕ → Objects → Progress × Semaphore × World (SharedProgram A X) → Round (SharedProgram A X)
  of_unit_down r o (p, sem, v) = of_acquire_unit r o (
    p,
    elim p [ waiting ↦ none | finished ↦ some (record { x = some r }) ],
    record { sem = sem },
    v,
  )

  module _ (c : ℕ) (o : Objects) (w : World (SharedProgram A X)) where
    pub round-waits :
        (op : Operation)
        → is_ready op o ≡ false
        → round op c o w ≡ waiting_round (event_for op) c o w
    unfolding set_event event_of Resource.acquire semaphore_of set_semaphore
    round-waits (acquire m) h =
        ap (of_acquire m o) (acquire-waits c w m (o.mutexes m) (ground arith))
    round-waits (acquire_unit r) h =
        ap (of_unit_down r o) (down-waits c w (semaphore_of (resource_at r) o) h)
    round-waits (up s) h = ap (of_semaphore s o) (up-waits c w (semaphore_of s o) h)
    round-waits (down s) h = ap (of_semaphore s o) (down-waits c w (semaphore_of s o) h)
    round-waits (put q a) h = ap (of_put q o) (put-waits c w a (o.queues q) h)
    round-waits (pop q) h = ap (of_pop q o) (pop-waits c w (o.queues q) (ground arith))
