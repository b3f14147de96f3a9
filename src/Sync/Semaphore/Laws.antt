-- ===== src/Sync/Semaphore/Laws.antt =====
-- include/cxxdes/sync/semaphore.hpp: the count under any interleaving of its users.
use libcxxdes.Base.{
  ℕ, suc, ◌+◌, ◌≡◌, ◌<◌, ◌≤◌, arith, List, [], ◌∷◌, ◌++◌, length, length-append, ltb, Bool-cases,
  inl, inr,
}
use libcxxdes.Core.World.{World}
use libcxxdes.Sync.Event.Waiters.{
  IsRegistered, Spares, Spares-IsRegistered, wait_in-IsRegistered, wake-IsRegistered, nobody,
}
use libcxxdes.Sync.Progress.{Progress, waiting, finished}
use libcxxdes.Sync.Semaphore.Defs.{Semaphore, new_semaphore, up, down}

-- A semaphore in its world, with the operations that have finished so far, the rounds that have
-- ended in a wait which no wake has ended yet, and their coroutines, in the order of the waits.
pub record System (S : Type 0) : Type 0 where
  pub sem : Semaphore
  pub world : World S
  pub ups : ℕ
  pub downs : ℕ
  pub ups_waiting : ℕ
  pub downs_waiting : ℕ
  pub waiters : List ℕ

module _ {S : Type 0} where
  unfoldable pub after_up : ℕ → System S → Progress × Semaphore × World S → System S
  after_up c s (finished, sem, v) = record {
    sem = sem;
    world = v;
    ups = suc s.ups;
    downs = s.downs;
    ups_waiting = 0;
    downs_waiting = 0;
    waiters = [];
  }
  after_up c s (waiting, sem, v) = record s {
    sem = sem;
    world = v;
    ups_waiting = suc s.ups_waiting;
    waiters = s.waiters ++ c ∷ [];
  }

  unfoldable pub after_down : ℕ → System S → Progress × Semaphore × World S → System S
  after_down c s (finished, sem, v) = record {
    sem = sem;
    world = v;
    ups = s.ups;
    downs = suc s.downs;
    ups_waiting = 0;
    downs_waiting = 0;
    waiters = [];
  }
  after_down c s (waiting, sem, v) = record s {
    sem = sem;
    world = v;
    downs_waiting = suc s.downs_waiting;
    waiters = s.waiters ++ c ∷ [];
  }

  -- A round of `up` or of `down` in some coroutine, or anything else that happens in the world and
  -- leaves the tokens of the event to whom they resume.
  pub data Step (s : System S) : System S → Type 0 where
    up_round : (c : ℕ) → Step s (after_up c s (up c s.sem s.world))
    down_round : (c : ℕ) → Step s (after_down c s (down c s.sem s.world))
    elsewhere : (v : World S) → Spares s.sem.event s.world v → Step s (record s { world = v })

  pub data Reach (s : System S) : System S → Type 0 where
    here : Reach s s
    later : {t u : System S} → Reach s t → Step t u → Reach s u

  abbrev pub initial : ℕ → ℕ → World S → System S
  initial value max w = record {
    sem = new_semaphore value max;
    world = w;
    ups = 0;
    downs = 0;
    ups_waiting = 0;
    downs_waiting = 0;
    waiters = [];
  }

  -- The count is what it began with, plus the finished `up`s, less the finished `down`s, and at
  -- most the maximum. Whoever waits cannot go on: a
  -- waiting `down` means that the count is 0, a waiting `up` that it is the maximum.
  pub record IsConsistent (value max : ℕ) (s : System S) : Type 0 where
    pub same_max : s.sem.max ≡ max
    pub balanced : s.sem.value + s.downs ≡ value + s.ups
    pub bounded : s.sem.value ≤ max
    pub counted : length s.waiters ≡ s.ups_waiting + s.downs_waiting
    pub no_lost_down : 0 < s.downs_waiting → s.sem.value ≡ 0
    pub no_lost_up : 0 < s.ups_waiting → s.sem.value ≡ max

  up-IsConsistent :
      (value max c : ℕ) (s : System S)
      → IsConsistent value max s
      → IsConsistent value max (after_up c s (up c s.sem s.world))
  unfolding up after_up
  up-IsConsistent value max c s ok = ground (arith, length-append s.waiters (c ∷ []))

  down-IsConsistent :
      (value max c : ℕ) (s : System S)
      → IsConsistent value max s
      → IsConsistent value max (after_down c s (down c s.sem s.world))
  unfolding down after_down
  down-IsConsistent value max c s ok = ground (arith, length-append s.waiters (c ∷ []))

  abbrev pub Registered : System S → Type 0
  Registered s = IsRegistered s.sem.event s.waiters s.world

  up-Registered :
      (c : ℕ) (s : System S) → Registered s → Registered (after_up c s (up c s.sem s.world))
  unfolding up after_up
  up-Registered c s ok = elim (Bool-cases (ltb s.sem.value s.sem.max)) [
    | inl e ↦ rw e (wake-IsRegistered s.sem.event s.world)
    | inr e ↦ rw e (wait_in-IsRegistered c s.sem.event s.waiters s.world ok)
  ]

  down-Registered :
      (c : ℕ) (s : System S) → Registered s → Registered (after_down c s (down c s.sem s.world))
  unfolding down after_down
  down-Registered c s ok = elim (Bool-cases (ltb 0 s.sem.value)) [
    | inl e ↦ rw e (wake-IsRegistered s.sem.event s.world)
    | inr e ↦ rw e (wait_in-IsRegistered c s.sem.event s.waiters s.world ok)
  ]

  Step-IsConsistent :
      (value max : ℕ) {s t : System S}
      → Step s t
      → IsConsistent value max s × Registered s
      → IsConsistent value max t × Registered t
  Step-IsConsistent value max {s} (up_round c) (ok, known) =
      (up-IsConsistent value max c s ok, up-Registered c s known)
  Step-IsConsistent value max {s} (down_round c) (ok, known) =
      (down-IsConsistent value max c s ok, down-Registered c s known)
  Step-IsConsistent value max {s} (elsewhere v spared) (ok, known) = (
    record {
      same_max = ok.same_max;
      balanced = ok.balanced;
      bounded = ok.bounded;
      counted = ok.counted;
      no_lost_down = ok.no_lost_down;
      no_lost_up = ok.no_lost_up;
    },
    Spares-IsRegistered s.sem.event s.waiters s.world v spared known,
  )

  -- In every state that rounds of `up` and `down` can reach, in any order and among other steps
  -- that leave the waiting tokens to their coroutines, from a semaphore whose value is within its
  -- maximum: the value is the initial one plus the finished `up`s less the finished `down`s, and
  -- within the maximum; a `down` waits only at 0, and an `up` only at the maximum; and the event
  -- holds, in the order of the waits, one token for each round that waits, different from the
  -- others and allocated, which resumes the coroutine of that round.
  pub Reach-IsConsistent :
      (value max : ℕ) (w : World S) {s : System S}
      → value ≤ max
      → Reach (initial value max w) s
      → IsConsistent value max s × IsRegistered s.sem.event s.waiters s.world
  unfolding new_semaphore
  Reach-IsConsistent value max w h here = (ground arith, nobody w)
  Reach-IsConsistent value max w h (later r st) =
      Step-IsConsistent value max st (Reach-IsConsistent value max w h r)
