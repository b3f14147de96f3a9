-- ===== src/Tests/Sync.antt =====
-- include/cxxdes/sync at concrete inputs.
use libcxxdes.Base.{ℕ, ◌≡◌, refl, arith, none, some, [], ◌∷◌, ◌++◌}
use libcxxdes.Base.Int.{pos}
use libcxxdes.Core.World.{World}
use libcxxdes.Sync.Event
use libcxxdes.Sync.Event.Laws.{IsEvent, IsWoken, await_suspend-IsEvent, wake-IsWoken}
use libcxxdes.Sync.Event.Waiters.{IsRegistered}
use libcxxdes.Sync.Semaphore
use libcxxdes.Sync.Semaphore.Laws as Counting
use libcxxdes.Sync.Mutex
use libcxxdes.Sync.Mutex.Laws as Exclusion
use libcxxdes.Sync.Queue
use libcxxdes.Sync.Queue.Laws as Fifo
use libcxxdes.Sync.Queue.Channel.{Move, received, channel, Step-Move}
use libcxxdes.Sync.Resource
use libcxxdes.Sync.Resource.Laws as Units
use libcxxdes.Tests.Worlds.{world_with}

abbrev calm_world : World (Unit {0})
calm_world = world_with []

abbrev two_waiters : Event.Event
two_waiters = record { tokens = 3 ∷ 4 ∷ [] }

two_waiters-IsEvent : IsEvent two_waiters calm_world
two_waiters-IsEvent = record {
  distinct = λ i. ground arith;
  allocated = λ i m. ground arith;
  queue_allocated = λ i m. ground arith;
  apart = λ i m. refl;
  latencies = λ i m. omega arith;
}

await_suspend-IsEvent_example :
    let (evt', _, v) =
      Event.await_suspend two_waiters (Event.wait (pos 1) (pos 0)) (some 0) calm_world in
    IsEvent evt' v × (evt'.tokens ≡ (3 ∷ 4 ∷ []) ++ 9 ∷ []) × (v.queue ≡ [])
unfolding Event.wait
await_suspend-IsEvent_example =
    await_suspend-IsEvent two_waiters (Event.wait (pos 1) (pos 0)) (some 0) calm_world
      two_waiters-IsEvent (omega arith)

wake-IsWoken_example :
    IsWoken two_waiters calm_world
      (Event.wake two_waiters calm_world).0
      (Event.wake two_waiters calm_world).1
wake-IsWoken_example = wake-IsWoken two_waiters calm_world two_waiters-IsEvent

-- A semaphore of 0 of 1: a `down` that waits, then an `up`.
abbrev empty_semaphore : Counting.System (Unit {0})
empty_semaphore = Counting.initial 0 1 calm_world

abbrev down_waiting : Counting.System (Unit {0})
down_waiting =
    Counting.after_down 2 empty_semaphore
      (Semaphore.down 2 empty_semaphore.sem empty_semaphore.world)

abbrev upped : Counting.System (Unit {0})
upped = Counting.after_up 1 down_waiting (Semaphore.up 1 down_waiting.sem down_waiting.world)

Reach-IsConsistent_example :
    Counting.IsConsistent 0 1 upped × IsRegistered upped.sem.event upped.waiters upped.world
Reach-IsConsistent_example = Counting.Reach-IsConsistent 0 1 calm_world {s = upped} (omega arith) (
    Counting.Reach.later (Counting.Reach.later Counting.Reach.here (Counting.Step.down_round 2))
      (Counting.Step.up_round 1))

-- A mutex that one coroutine holds and another waits for, and which is released and acquired.
abbrev free_mutex : Exclusion.System (Unit {0})
free_mutex = Exclusion.initial calm_world

abbrev held_mutex : Exclusion.System (Unit {0})
held_mutex =
    Exclusion.after_acquire 1 free_mutex (Mutex.acquire 7 1 free_mutex.mutex free_mutex.world)

abbrev contended_mutex : Exclusion.System (Unit {0})
contended_mutex =
    Exclusion.after_acquire 2 held_mutex (Mutex.acquire 7 2 held_mutex.mutex held_mutex.world)

abbrev released_mutex : Exclusion.System (Unit {0})
released_mutex =
    Exclusion.after_release [] [] contended_mutex
      (Mutex.release (record { x = some 7 }) contended_mutex.mutex contended_mutex.world)

abbrev mutex_again : Exclusion.System (Unit {0})
mutex_again =
    Exclusion.after_acquire 2 released_mutex
      (Mutex.acquire 7 2 released_mutex.mutex released_mutex.world)

-- The released handle is null, and the second one is valid.
handles_of_mutex : mutex_again.handles ≡ (record { x = none }) ∷ (record { x = some 7 }) ∷ []
unfolding Exclusion.after_acquire Exclusion.after_release Mutex.acquire Mutex.release Mutex.valid
    Event.wake
handles_of_mutex = refl

one_waiter : contended_mutex.waiters ≡ 2 ∷ []
unfolding Exclusion.after_acquire Mutex.acquire
one_waiter = refl

held_once : contended_mutex.handles ≡ [] ++ (record { x = some 7 }) ∷ []
unfolding Exclusion.after_acquire Mutex.acquire
held_once = refl

Reach-IsExclusive_example :
    Exclusion.IsExclusive 7 mutex_again
    × IsRegistered mutex_again.mutex.event mutex_again.waiters mutex_again.world
Reach-IsExclusive_example = Exclusion.Reach-IsExclusive 7 calm_world {s = mutex_again} (
    Exclusion.Reach.later
      (Exclusion.Reach.later
        (Exclusion.Reach.later
          (Exclusion.Reach.later Exclusion.Reach.here (Exclusion.Step.acquire_round 1))
          (Exclusion.Step.acquire_round 2))
        (Exclusion.Step.release_handle [] (record { x = some 7 }) [] held_once))
      (Exclusion.Step.acquire_round 2))

-- A queue for one value: a `put`, and a second one that waits.
abbrev empty_queue : Fifo.System ℕ (Unit {0})
empty_queue = Fifo.initial 1 calm_world

abbrev put_once : Fifo.System ℕ (Unit {0})
put_once = Fifo.after_put 1 10 empty_queue (Queue.put 1 10 empty_queue.queue empty_queue.world)

abbrev put_waiting : Fifo.System ℕ (Unit {0})
put_waiting = Fifo.after_put 2 20 put_once (Queue.put 2 20 put_once.queue put_once.world)

abbrev popped_once : Fifo.System ℕ (Unit {0})
popped_once = Fifo.after_pop 3 put_waiting (Queue.pop 3 put_waiting.queue put_waiting.world)

Reach-IsFifo_example :
    Fifo.IsFifo 1 popped_once
    × IsRegistered popped_once.queue.event popped_once.waiters popped_once.world
Reach-IsFifo_example = Fifo.Reach-IsFifo 1 calm_world {s = popped_once} (
    Fifo.Reach.later
      (Fifo.Reach.later (Fifo.Reach.later Fifo.Reach.here (Fifo.Step.put_round 1 10))
        (Fifo.Step.put_round 2 20))
      (Fifo.Step.pop_round 3))

Step-Move_example : Move ℕ (channel put_waiting) (received 10) (channel popped_once)
unfolding Fifo.after_put Queue.put Queue.can_put Queue.new_queue Queue.pop Event.wake
Step-Move_example = Step-Move {s = put_waiting} {t = popped_once} (Fifo.Step.pop_round 3)

-- A resource of one unit: taken, asked for again, and released.
abbrev one_unit : Units.System (Unit {0})
one_unit = Units.initial 1 calm_world

abbrev taken : Units.System (Unit {0})
taken = Units.after_acquire 1 one_unit (Resource.acquire 7 1 one_unit.resource one_unit.world)

abbrev asked : Units.System (Unit {0})
asked = Units.after_acquire 2 taken (Resource.acquire 7 2 taken.resource taken.world)

abbrev handed_back : Units.System (Unit {0})
handed_back =
    Units.after_release 1 [] [] asked
      (Resource.release 1 (record { x = some 7 }) asked.resource asked.world)

-- The unit that was taken is the only handle, also after the request in vain.
asked_in_vain : asked.handles ≡ [] ++ (record { x = some 7 }) ∷ []
unfolding Units.after_acquire Resource.acquire Resource.new_resource Semaphore.down
asked_in_vain = refl

asking : asked.waiters ≡ 2 ∷ []
unfolding Units.after_acquire Resource.acquire Resource.new_resource Semaphore.down
asking = refl

Reach-IsConserved_example :
    Units.IsConserved 7 1 handed_back
    × IsRegistered handed_back.resource.sem.event handed_back.waiters handed_back.world
Reach-IsConserved_example = Units.Reach-IsConserved 7 1 calm_world {s = handed_back} (
    Units.Reach.later
      (Units.Reach.later (Units.Reach.later Units.Reach.here (Units.Step.acquire_round 1))
        (Units.Step.acquire_round 2))
      (Units.Step.release_handle 1 [] (record { x = some 7 }) [] asked_in_vain))
