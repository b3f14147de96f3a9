-- ===== src/Sync/Queue/Channel.antt =====
-- include/cxxdes/sync/queue.hpp against its specification: a first-in first-out channel.
use libcxxdes.Base.{
  ℕ, ◌≡◌, refl, ◌<◌, ◌⊎◌, inl, inr, Bool-cases, Option, none, some, List, [], ◌∷◌, ◌++◌, arith,
  length,
}
use libcxxdes.Sync.Progress.{Progress, waiting, finished}
use libcxxdes.Sync.Queue.Defs.{can_put, put, pop}
use libcxxdes.Sync.Queue.Laws.{System, Step, put_round, pop_round, elsewhere, after_put, after_pop}

-- A channel holds at most `capacity` values, or any number where that is 0.
pub record Channel (A : Type 0) : Type 0 where
  pub capacity : ℕ
  pub contents : List A

abbrev pub HasRoom : {A : Type 0} → Channel A → Type 0
HasRoom h = (h.capacity ≡ 0) ⊎ (length h.contents < h.capacity)

-- What the users of a queue see: no operation, a `put` of a value that finished or waits, and a
-- `pop` that returned a value, finished without one, or waits.
pub data Action (A : Type 0) : Type 0 where
  idle : Action A
  sent : A → Action A
  send_blocked : Action A
  received : A → Action A
  received_nothing : Action A
  receive_blocked : Action A

-- What a channel can do, and what its users see of it.
pub data Move (A : Type 0) : Channel A → Action A → Channel A → Type 0 where
  rests : {h : Channel A} → Move A h idle h
  sends :
      {h : Channel A} (a : A)
      → HasRoom h
      → Move A h (sent a) (record { capacity = h.capacity; contents = h.contents ++ a ∷ [] })
  send_blocks : {h : Channel A} → ¬ HasRoom h → Move A h send_blocked h
  receives :
      {n : ℕ} {rest : List A} (a : A)
      → Move A
          (record { capacity = n; contents = a ∷ rest })
          (received a)
          (record { capacity = n; contents = rest })
  receive_blocks :
      {n : ℕ}
      → Move A
          (record { capacity = n; contents = [] })
          receive_blocked
          (record { capacity = n; contents = [] })

abbrev pub channel : {A S : Type 0} → System A S → Channel A
channel s = record { capacity = s.queue.max_size; contents = s.queue.items }

-- What a round showed, from what it returned.
abbrev put_action : {A : Type 0} → A → Progress → Action A
put_action a finished = sent a
put_action a waiting = send_blocked

abbrev pop_action : {A : Type 0} → Progress → Option A → Action A
pop_action finished (some a) = received a
pop_action finished none = received_nothing
pop_action waiting r = receive_blocked

module _ {A S : Type 0} where
  abbrev pub action : {s t : System A S} → Step s t → Action A
  action {s} (put_round c a) = put_action a (put c a s.queue s.world).0
  action {s} (pop_round c) = let (p, r, q, v) = pop c s.queue s.world in pop_action p r
  action (elsewhere v spared) = idle

  put-Move :
      (c : ℕ) (a : A) (s : System A S)
      → Move A
          (channel s)
          (put_action a (put c a s.queue s.world).0)
          (channel (after_put c a s (put c a s.queue s.world)))
  unfolding put after_put can_put
  put-Move c a s = elim (Bool-cases (can_put s.queue)) [
    | inl e ↦ rw e (sends a (ground (arith, e)))
    | inr e ↦ rw e (send_blocks (λ room. ground (arith, e)))
  ]

  pop-Move :
      (c : ℕ) (s : System A S)
      → Move A
          (channel s)
          (pop_action (pop c s.queue s.world).0 (pop c s.queue s.world).1)
          (channel (after_pop c s (pop c s.queue s.world)))
  unfolding pop after_pop
  pop-Move c s = go s.queue.items refl
    where
      go :
          (xs : List A)
          → s.queue.items ≡ xs
          → Move A
              (channel s)
              (pop_action (pop c s.queue s.world).0 (pop c s.queue s.world).1)
              (channel (after_pop c s (pop c s.queue s.world)))
      go [] e = rw e receive_blocks
      go (a ∷ rest) e = rw e (receives a)

  -- The queue refines a first-in first-out channel of its size: each step of the system of `put`
  -- and `pop` rounds is the move of the channel that its outcome names. A `put` that finishes
  -- sends its value at the end, where there is room, and one that waits finds no room; a `pop`
  -- that finishes returns the value at the front and takes it out, and one that waits finds the
  -- channel empty; a round that waits, and any other step, leaves the channel as it was.
  pub Step-Move : {s t : System A S} (st : Step s t) → Move A (channel s) (action st) (channel t)
  Step-Move {s} (put_round c a) = put-Move c a s
  Step-Move {s} (pop_round c) = pop-Move c s
  Step-Move (elsewhere v spared) = rests
