-- ===== src/Sync/Queue/Laws.antt =====
-- include/cxxdes/sync/queue.hpp: order and capacity under any interleaving of its users.
use mathlib.Core.List.{append_assoc}
use libcxxdes.Base.{
  ℕ, suc, ◌+◌, ◌≡◌, Bool-cases, ◌<◌, ◌≤◌, inl, inr, Option, none, some, List, [], ◌∷◌, ◌++◌, arith,
  length, length-append, List-cases,
}
use libcxxdes.Core.World.{World}
use libcxxdes.Sync.Progress.{Progress, waiting, finished}
use libcxxdes.Sync.Event.Waiters.{
  IsRegistered, Spares, Spares-IsRegistered, wait_in-IsRegistered, wake-IsRegistered, nobody,
}
use libcxxdes.Sync.Queue.Defs.{Queue, new_queue, can_put, put, pop}

-- A queue in its world, the values that were put and popped so far, the rounds that have ended in a
-- wait which no wake has ended yet, and their coroutines, in the order of the waits.
pub record System (A S : Type 0) : Type 0 where
  pub queue : Queue A
  pub world : World S
  pub puts : List A
  pub pops : List A
  pub puts_waiting : ℕ
  pub pops_waiting : ℕ
  pub waiters : List ℕ

abbrev pub returned : {A : Type 0} → Option A → List A
returned none = []
returned (some a) = a ∷ []

module _ {A S : Type 0} where
  unfoldable pub after_put : ℕ → A → System A S → Progress × Queue A × World S → System A S
  after_put c a s (finished, q, v) = record {
    queue = q;
    world = v;
    puts = s.puts ++ a ∷ [];
    pops = s.pops;
    puts_waiting = 0;
    pops_waiting = 0;
    waiters = [];
  }
  after_put c a s (waiting, q, v) = record s {
    queue = q;
    world = v;
    puts_waiting = suc s.puts_waiting;
    waiters = s.waiters ++ c ∷ [];
  }

  unfoldable pub after_pop : ℕ → System A S → Progress × Option A × Queue A × World S → System A S
  after_pop c s (finished, r, q, v) = record {
    queue = q;
    world = v;
    puts = s.puts;
    pops = s.pops ++ returned r;
    puts_waiting = 0;
    pops_waiting = 0;
    waiters = [];
  }
  after_pop c s (waiting, r, q, v) = record s {
    queue = q;
    world = v;
    pops_waiting = suc s.pops_waiting;
    waiters = s.waiters ++ c ∷ [];
  }

  -- A round of `put` or `pop` in some coroutine, or anything else that happens in the world and
  -- leaves the tokens of the event to whom they resume.
  pub data Step (s : System A S) : System A S → Type 0 where
    put_round : (c : ℕ) (a : A) → Step s (after_put c a s (put c a s.queue s.world))
    pop_round : (c : ℕ) → Step s (after_pop c s (pop c s.queue s.world))
    elsewhere : (v : World S) → Spares s.queue.event s.world v → Step s (record s { world = v })

  pub data Reach (s : System A S) : System A S → Type 0 where
    here : Reach s s
    later : {t u : System A S} → Reach s t → Step t u → Reach s u

  abbrev pub initial : ℕ → World S → System A S
  initial max_size w = record {
    queue = new_queue max_size;
    world = w;
    puts = [];
    pops = [];
    puts_waiting = 0;
    pops_waiting = 0;
    waiters = [];
  }

  -- What was put is what was popped, in the same order, and then what is stored. A bounded queue
  -- keeps within its size. Whoever waits cannot go on: a waiting `pop` means that nothing is stored, a waiting `put` that the queue is bounded
  -- and full.
  pub record IsFifo (max_size : ℕ) (s : System A S) : Type 0 where
    pub same_size : s.queue.max_size ≡ max_size
    pub in_order : s.puts ≡ s.pops ++ s.queue.items
    pub within : 0 < max_size → length s.queue.items ≤ max_size
    pub counted : length s.waiters ≡ s.puts_waiting + s.pops_waiting
    pub no_lost_pop : 0 < s.pops_waiting → length s.queue.items ≡ 0
    pub no_lost_put : 0 < s.puts_waiting → (0 < max_size) × (length s.queue.items ≡ max_size)

  put-IsFifo :
      (max_size c : ℕ) (a : A) (s : System A S)
      → IsFifo max_size s
      → IsFifo max_size (after_put c a s (put c a s.queue s.world))
  unfolding put after_put
  put-IsFifo max_size c a s ok = ground (
    arith,
    length-append s.waiters (c ∷ []),
    length-append s.queue.items (a ∷ []),
    append_assoc s.pops s.queue.items (a ∷ []),
  )

  pop-IsFifo :
      (max_size c : ℕ) (s : System A S)
      → IsFifo max_size s
      → IsFifo max_size (after_pop c s (pop c s.queue s.world))
  unfolding pop after_pop
  pop-IsFifo max_size c s ok = elim (List-cases s.queue.items) [
    | inl e ↦ ground (arith, e, length-append s.waiters (c ∷ []))
    | inr (a, rest, e) ↦ ground (arith, e, append_assoc s.pops (a ∷ []) rest)
  ]

  abbrev pub Registered : System A S → Type 0
  Registered s = IsRegistered s.queue.event s.waiters s.world

  put-Registered :
      (c : ℕ) (a : A) (s : System A S)
      → Registered s
      → Registered (after_put c a s (put c a s.queue s.world))
  unfolding put after_put
  put-Registered c a s ok = elim (Bool-cases (can_put s.queue)) [
    | inl e ↦ rw e (wake-IsRegistered s.queue.event s.world)
    | inr e ↦ rw e (wait_in-IsRegistered c s.queue.event s.waiters s.world ok)
  ]

  pop-Registered :
      (c : ℕ) (s : System A S) → Registered s → Registered (after_pop c s (pop c s.queue s.world))
  unfolding pop after_pop
  pop-Registered c s ok = elim (List-cases s.queue.items) [
    | inl e ↦ rw e (wait_in-IsRegistered c s.queue.event s.waiters s.world ok)
    | inr (a, rest, e) ↦ rw e (wake-IsRegistered s.queue.event s.world)
  ]

  Step-IsFifo :
      (max_size : ℕ) {s t : System A S}
      → Step s t
      → IsFifo max_size s × Registered s
      → IsFifo max_size t × Registered t
  Step-IsFifo max_size {s} (put_round c a) (ok, known) =
      (put-IsFifo max_size c a s ok, put-Registered c a s known)
  Step-IsFifo max_size {s} (pop_round c) (ok, known) =
      (pop-IsFifo max_size c s ok, pop-Registered c s known)
  Step-IsFifo max_size {s} (elsewhere v spared) (ok, known) = (
    record {
      same_size = ok.same_size;
      in_order = ok.in_order;
      within = ok.within;
      counted = ok.counted;
      no_lost_pop = ok.no_lost_pop;
      no_lost_put = ok.no_lost_put;
    },
    Spares-IsRegistered s.queue.event s.waiters s.world v spared known,
  )

  -- In every state that rounds of `put` and `pop` can reach from a new queue, in any order and
  -- among other steps that leave the waiting tokens to their coroutines: the values put are the
  -- values popped followed by those stored, in the same order; a bounded queue keeps within its
  -- size; a `pop` waits only while nothing is stored, and a `put` only while the queue is bounded
  -- and full; and the event holds, in the order of the waits, one token for each round that waits,
  -- different from the others and allocated, which resumes the coroutine of that round.
  pub Reach-IsFifo :
      (max_size : ℕ) (w : World S) {s : System A S}
      → Reach (initial max_size w) s
      → IsFifo max_size s × IsRegistered s.queue.event s.waiters s.world
  unfolding new_queue
  Reach-IsFifo max_size w here = (ground arith, nobody w)
  Reach-IsFifo max_size w (later r st) = Step-IsFifo max_size st (Reach-IsFifo max_size w r)
