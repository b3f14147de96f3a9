-- ===== src/Sync/Queue/Defs.antt =====
-- include/cxxdes/sync/queue.hpp: `put` and `pop` by their rounds. The head of `items` is the front.
use libcxxdes.Base.{
  ℕ, Bool, Option, none, some, List, [], ◌∷◌, ◌++◌, ◌||◌, not, length, ltb, if◌then◌else◌,
}
use libcxxdes.Core.World.{World}
use libcxxdes.Sync.Progress.{Progress, waiting, finished}
use libcxxdes.Sync.Event.{Event, new_event, wake, wait_in}

pub record Queue (A : Type 0) : Type 0 where
  pub max_size : ℕ
  pub items : List A
  pub event : Event

module _ {A : Type 0} where
  unfoldable pub new_queue : ℕ → Queue A
  new_queue max_size = record { max_size = max_size; items = []; event = new_event }

  unfoldable pub bounded : Queue A → Bool
  bounded q = ltb 0 q.max_size

  unfoldable pub can_put : Queue A → Bool
  unfolding bounded
  can_put q = not (bounded q) || ltb (length q.items) q.max_size

  unfoldable pub can_pop : Queue A → Bool
  can_pop q = ltb 0 (length q.items)

module _ {A S : Type 0} where
  -- A round of `put`
  unfoldable pub put : ℕ → A → Queue A → World S → Progress × Queue A × World S
  unfolding can_put wake
  put c a q w =
      if can_put q
      then (let (evt, v) = wake q.event w in
          (finished, record q { items = q.items ++ a ∷ []; event = evt }, v))
      else (let (evt, v) = wait_in c q.event w in (waiting, record q { event = evt }, v))

  -- A round of `pop`, with the value that it returns. `can_pop` fails exactly on the empty list.
  unfoldable pub pop : ℕ → Queue A → World S → Progress × Option A × Queue A × World S
  unfolding wake
  pop c q w = elim q.items [
    | [] ↦ let (evt, v) = wait_in c q.event w in (waiting, none, record q { event = evt }, v)
    | a ∷ rest ↦
        let (evt, v) = wake q.event w in
        (finished, some a, record q { items = rest; event = evt }, v)
  ]
