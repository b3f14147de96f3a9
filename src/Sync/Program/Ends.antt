-- ===== src/Sync/Program/Ends.antt =====
-- How the rounds of the operations of include/cxxdes/sync end, by what their loops test.
use libcxxdes.Base.{ℕ, ◌+◌, ◌-◌, ◌≡◌, true, false, none, some, List, [], ◌∷◌, ◌++◌, ltb, arith}
use libcxxdes.Core.World.{World}
use libcxxdes.Sync.Progress.{waiting, finished}
use libcxxdes.Sync.Event.{wait_in, wake}
use libcxxdes.Sync.Mutex
use libcxxdes.Sync.Mutex.{Mutex, Handle}
use libcxxdes.Sync.Semaphore
use libcxxdes.Sync.Semaphore.{Semaphore}
use libcxxdes.Sync.Queue
use libcxxdes.Sync.Queue.{Queue, can_put}

module _ {S : Type 0} (c : ℕ) (w : World S) where
  pub acquire-waits :
      (self : ℕ) (m : Mutex)
      → m.owned ≡ true
      → Mutex.acquire self c m w
        ≡ (let (evt, v) = wait_in c m.event w in (waiting, none, record m { event = evt }, v))
  unfolding Mutex.acquire
  acquire-waits self m h = ground arith

  pub acquire-ends :
      (self : ℕ) (m : Mutex)
      → m.owned ≡ false
      → Mutex.acquire self c m w
        ≡ (finished, some (record { x = some self }), record m { owned = true }, w)
  unfolding Mutex.acquire
  acquire-ends self m h = ground arith

  pub up-waits :
      (s : Semaphore)
      → ltb s.value s.max ≡ false
      → Semaphore.up c s w
        ≡ (let (evt, v) = wait_in c s.event w in (waiting, record s { event = evt }, v))
  unfolding Semaphore.up Semaphore.wait_on
  up-waits s h = ground arith

  pub up-ends :
      (s : Semaphore)
      → ltb s.value s.max ≡ true
      → Semaphore.up c s w ≡ (
          let (evt, v) = wake s.event w in
          (finished, record s { value = s.value + 1; event = evt }, v))
  unfolding Semaphore.up Semaphore.wake_all
  up-ends s h = ground arith

  pub down-waits :
      (s : Semaphore)
      → ltb 0 s.value ≡ false
      → Semaphore.down c s w
        ≡ (let (evt, v) = wait_in c s.event w in (waiting, record s { event = evt }, v))
  unfolding Semaphore.down Semaphore.wait_on
  down-waits s h = ground arith

  pub down-ends :
      (s : Semaphore)
      → ltb 0 s.value ≡ true
      → Semaphore.down c s w ≡ (
          let (evt, v) = wake s.event w in
          (finished, record s { value = s.value - 1; event = evt }, v))
  unfolding Semaphore.down Semaphore.wake_all
  down-ends s h = ground arith

  pub put-waits :
      (a : ℕ) (q : Queue ℕ)
      → can_put q ≡ false
      → Queue.put c a q w
        ≡ (let (evt, v) = wait_in c q.event w in (waiting, record q { event = evt }, v))
  unfolding Queue.put
  put-waits a q h = ground arith

  pub put-ends :
      (a : ℕ) (q : Queue ℕ)
      → can_put q ≡ true
      → Queue.put c a q w ≡ (
          let (evt, v) = wake q.event w in
          (finished, record q { items = q.items ++ a ∷ []; event = evt }, v))
  unfolding Queue.put
  put-ends a q h = ground arith

  pub pop-waits :
      (q : Queue ℕ)
      → q.items ≡ []
      → Queue.pop c q w
        ≡ (let (evt, v) = wait_in c q.event w in (waiting, none, record q { event = evt }, v))
  unfolding Queue.pop
  pop-waits q h = ground arith

  pub pop-ends :
      (q : Queue ℕ) (a : ℕ) (rest : List ℕ)
      → q.items ≡ a ∷ rest
      → Queue.pop c q w ≡ (
          let (evt, v) = wake q.event w in
          (finished, some a, record q { items = rest; event = evt }, v))
  unfolding Queue.pop
  pop-ends q a rest h = ground arith
