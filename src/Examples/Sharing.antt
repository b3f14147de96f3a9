-- ===== src/Examples/Sharing.antt =====
-- src/examples/mutex.cpp, semaphore.cpp, queue.cpp, resource.cpp and event.cpp
use libcxxdes.Base.{ℕ, ◌-◌, ◌^◌, Option, none, some, List, [], ◌∷◌}
use libcxxdes.Base.Int.{ℤ, pos, negsuc}
use libcxxdes.Core.Token.{inherit}
use libcxxdes.Core.World.{all_of}
use libcxxdes.Core.Timeout.{ticks, instant}
use libcxxdes.Core.Composition.{compose}
use libcxxdes.Core.Coroutine.{new_coroutine}
use libcxxdes.Core.Process.{
  Leaf, join_void, sleep, co_return, call, with_priority, await_then, co_with, single, composed,
  both_of,
}
use libcxxdes.Sync.Event.{wait}
use libcxxdes.Sync.Semaphore.{new_semaphore}
use libcxxdes.Sync.Resource.{new_resource}
use libcxxdes.Sync.Queue.{new_queue}
use libcxxdes.Sync.Program.{
  Objects, waits, wakes, event_at, semaphore_at, acquire_body, release_body, up_body, down_body,
  put_body, pop_body, acquire_unit_body, release_unit_body,
}
use libcxxdes.Examples.Base.{leaf, delay}
use libcxxdes.Examples.Synced.{
  SyncCode, call_event, sync_print, sync_print_value, sync_await, sync_call, sync_result,
  no_objects,
}

-- `co_await all_of(…)` of the coroutines that have been called.
abbrev pub await_all : List ℕ → SyncCode
await_all cs = sync_await (single (composed (compose all_of (children cs)))) (co_return none)
  where
    children : List ℕ → List Leaf
    children [] = []
    children (c ∷ cs) = join_void (new_coroutine c) ∷ children cs

abbrev pub child : ℕ → Leaf
child c = join_void (new_coroutine c)

abbrev pub call_with : SyncCode → ℤ → (ℕ → SyncCode) → SyncCode
call_with b p k = call b (λ c. with_priority c p (k c))

abbrev pub number_in : Option ℕ → ℕ
number_in r = elim r [ none ↦ 0 | some x ↦ x ]

-- mutex.cpp: `p` and `co_main`, with the mutex at 0. The handle of `_Co_with` is that of the mutex.
unfoldable pub locked : ℕ → ℕ → SyncCode
unfolding co_with acquire_body release_body
locked idx t =
    call
      (co_with (acquire_body call_event 0)
        (sync_print_value "idx" idx
          (sync_await (leaf (delay t)) (sync_print_value "idx" idx (co_return none))))
        (release_body call_event (some 0)))
      (λ h. sync_await (leaf (join_void (new_coroutine h))) (co_return none))

unfoldable pub mutex_main : SyncCode
unfolding locked
mutex_main = call_with (locked 1 5) (pos 5) (λ a. call_with (locked 2 5) (pos 3) (λ b.
    call_with (locked 3 5) (pos 2) (λ c.
      call_with (locked 4 5) (pos 4)
        (λ d. call_with (locked 5 5) (pos 1) (λ e. await_all (a ∷ b ∷ c ∷ d ∷ e ∷ []))))))

-- semaphore.cpp
unfoldable pub downs : SyncCode
unfolding down_body
downs = sync_call (down_body call_event (semaphore_at 0)) (
    sync_call (down_body call_event (semaphore_at 0))
      (sync_call (down_body call_event (semaphore_at 0)) (sync_print "p1" (co_return none))))

unfoldable pub up_after : ℕ → SyncCode
unfolding up_body
up_after t =
    sync_await (leaf (delay t)) (sync_call (up_body call_event (semaphore_at 0)) (co_return none))

unfoldable pub semaphore_main : SyncCode
unfolding downs up_after both_of
semaphore_main = call downs (λ a. call (up_after 5) (λ b. call (up_after 10) (λ c.
    sync_await (composed (both_of (composed (both_of (child a) (child b))) (single (child c))))
      (co_return none))))

unfoldable pub one_permit : Objects
unfolding new_semaphore
one_permit = record no_objects { semaphores = λ i. new_semaphore 1 (2 ^ 64 - 1) }

-- queue.cpp
unfoldable pub pops : SyncCode
unfolding pop_body
pops = sync_result (pop_body call_event 0) (λ r1. sync_print_value "p1: r" (number_in r1) (
    sync_await (leaf (delay 7)) (
      sync_result (pop_body call_event 0)
        (λ r2. sync_print_value "p1: r" (number_in r2) (co_return none)))))

unfoldable pub puts : SyncCode
unfolding put_body
puts = sync_await (leaf (delay 5)) (
    sync_call (put_body call_event 0 1)
      (sync_call (put_body call_event 0 2) (sync_print "p2" (co_return none))))

unfoldable pub queue_main : SyncCode
unfolding pops puts both_of
queue_main = call pops (λ a.
    call puts (λ b. sync_await (single (composed (both_of (child a) (child b)))) (co_return none)))

unfoldable pub queue_of_one : Objects
unfolding new_queue
queue_of_one = record no_objects { queues = λ i. new_queue 1 }

-- resource.cpp
unfoldable pub uses : ℕ → ℕ → SyncCode
unfolding acquire_unit_body release_unit_body
uses id duration = sync_print_value "try acquire" id (
    sync_result (acquire_unit_body call_event 0) (λ handle. sync_print_value "acquired" id (
      sync_await (leaf (delay duration)) (
        sync_print_value "release" id (
          sync_call (release_unit_body call_event handle)
            (sync_print_value "done" id (co_return none)))))))

unfoldable pub resource_main : SyncCode
unfolding uses
resource_main = call (uses 0 4) (λ a. call (uses 1 10) (λ b.
    call (uses 2 2)
      (λ c. call_with (uses 3 10) (pos 10_000) (λ d. await_all (a ∷ b ∷ c ∷ d ∷ [])))))

unfoldable pub three_units : Objects
unfolding new_resource
three_units = record no_objects { resources = λ i. new_resource 3 }

-- event.cpp
abbrev pub wait_for : ℤ → ℤ → SyncCode → SyncCode
wait_for latency priority b =
    await_then (call_event (waits (event_at 0) (wait latency priority))) (λ v. b)

abbrev pub wake_up : SyncCode → SyncCode
wake_up b = await_then (call_event (wakes (event_at 0))) (λ v. b)

abbrev pub await_until : ℕ → SyncCode → SyncCode
await_until t b = sync_await (leaf (sleep (instant (ticks (pos t)) inherit))) b

unfoldable pub event_p1 : SyncCode
event_p1 = sync_print "p1.a" (wait_for (pos 2) (negsuc 99) (sync_print "p1.b" (co_return none)))

unfoldable pub event_p2 : SyncCode
event_p2 =
    sync_print "p2.a" (
      sync_await (leaf (delay 5))
        (sync_print "p2.b" (wake_up (sync_print "p2.c" (co_return none)))))

unfoldable pub event_p3 : SyncCode
event_p3 =
    wait_for (pos 8) inherit
      (sync_print "p3.a" (await_until 500 (wake_up (await_until 600 (wake_up (co_return none))))))

unfoldable pub event_p4 : SyncCode
event_p4 = sync_print "p4.a" (
    sync_await (leaf (delay 20)) (
      sync_print "p4.b" (
        wait_for (pos 0) inherit
          (sync_print "p4.c" (wait_for (pos 2) inherit (sync_print "p4.d" (co_return none)))))))

unfoldable pub event_main : SyncCode
unfolding event_p1 event_p2 event_p3 event_p4
event_main = call event_p1 (λ a.
    call event_p2 (λ b. call event_p3 (λ c. call event_p4 (λ d. await_all (a ∷ b ∷ c ∷ d ∷ [])))))
