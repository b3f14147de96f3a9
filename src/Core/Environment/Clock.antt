-- ===== src/Core/Environment/Clock.antt =====
-- include/cxxdes/core/impl/environment.ipp: `now_` along the steps. `keeps` states of the program's
-- coroutines that they cannot write `now_`, which is private to the environment.
use libcxxdes.Base.{ℕ, ◌≡◌, inl, inr, none, some, Option-cases, In, arith, List}
use libcxxdes.Base.Int.{◌≤ℤ◌, max_ℤ, eq_of_parts, ≤ℤ_or_gt}
use libcxxdes.Core.Token.{Token}
use libcxxdes.Core.Token.Order.{Before}
use libcxxdes.Core.Queue.{PriorityQueue}
use libcxxdes.Core.World.{World, Outcome, done, threw, comp_of}
use libcxxdes.Core.Composition.{invoke}
use libcxxdes.Core.Environment.Order.{AllPlain, next_event-first}
use libcxxdes.Core.Environment.Defs.{
  Step, idle, stepped, failed, next_event, process, advance, step,
}

abbrev pub world_of : {A : Type 0} → Outcome A → A
world_of (done a) = a
world_of (threw e a) = a

-- The world that a call of `step` leaves behind.
abbrev pub after : {S : Type 0} → Step S → World S
after (idle w) = w
after (stepped w) = w
after (failed e w) = w

pub invoke-now : {S : Type 0} (h tkn : ℕ) (w : World S) → (world_of (invoke h tkn w)).now ≡ w.now
unfolding invoke
invoke-now h tkn w = ground arith

-- No event of the queue lies in the past.
abbrev pub IsCausal : {S : Type 0} → World S → Type 0
IsCausal w = (i : ℕ) → In i w.queue → w.now ≤ℤ (w.token i).time

pub not-Before-time : (a b : Token) → ¬ Before a b → b.time ≤ℤ a.time
not-Before-time a b h = elim (≤ℤ_or_gt b.time a.time) [ inl p ↦ p | inr p ↦ absurd (h (inl p)) ]

module _ {S : Type 0} (q : PriorityQueue) (resume : ℕ → World S → World S) where
  pub step-some :
      (w : World S) (t : ℕ) (rest : List ℕ)
      → q.pop (comp_of w) w.queue ≡ some (t, rest)
      → step q resume w ≡ process q resume t (advance q resume t rest w)
  unfolding step
  step-some w t rest e = ground (arith, e)

  -- Without an event a step does nothing.
  pub step-idle : (w : World S) → next_event q w ≡ none → step q resume w ≡ idle w
  unfolding step next_event
  step-idle w e = ground arith

module _ {S : Type 0} (q : PriorityQueue) (resume : ℕ → World S → World S)
    (keeps : (c : ℕ) (w : World S) → (resume c w).now ≡ w.now) where
  process-now : (tkn : ℕ) (w : World S) → (after (process q resume tkn w)).now ≡ w.now
  unfolding process
  process-now tkn w = elim (Option-cases (w.token tkn).handler) [
    | inr (h, e) ↦ ground (arith, e, invoke-now h tkn w)
    | inl e ↦ elim (Option-cases (w.token tkn).coro_data) [
      | inr (c, f) ↦ ground (arith, e, f, keeps c (record w { current = some c }))
      | inl f ↦ ground (arith, e, f)
    ]
  ]

  -- A step sets the time to that of the event it takes, unless that is past.
  pub step-now :
      (w : World S) (t : ℕ)
      → next_event q w ≡ some t
      → (after (step q resume w)).now ≡ max_ℤ (w.token t).time w.now
  unfolding next_event advance
  step-now w t e = elim (Option-cases (q.pop (comp_of w) w.queue)) [
    | inl none_left ↦ absurd (ground (arith, none_left))
    | inr ((t', rest), popped) ↦
        let same : t' ≡ t = ground (arith, popped) in
        rw (step-some q resume w t' rest popped, ← same)
          (process-now t' (advance q resume t' rest w))
  ]

  -- If resumed coroutines leave `now` alone, the queue holds no exception token and no event of
  -- the past, and there is a next event, then `step` takes `now` exactly to the time of that
  -- event, and no event of the queue is earlier.
  pub step-now-exact :
      (w : World S) (t : ℕ)
      → AllPlain w
      → IsCausal w
      → next_event q w ≡ some t
      → ((after (step q resume w)).now ≡ (w.token t).time)
        × ((i : ℕ) → In i w.queue → (w.token t).time ≤ℤ (w.token i).time)
  step-now-exact w t plain causal e =
      let (m, first) = next_event-first q w t plain e in
      (
        ground (arith, step-now w t e, causal t m, eq_of_parts (w.token t).time w.now),
        λ i n. not-Before-time (w.token i) (w.token t) (first i n),
      )

  -- If resumed coroutines leave `now` alone, a step never takes `now` back, whatever it does and
  -- even if it throws.
  pub step-now-mono : (w : World S) → w.now ≤ℤ (after (step q resume w)).now
  step-now-mono w = elim (Option-cases (next_event q w)) [
    | inl e ↦ rw (step-idle q resume w e) (omega arith)
    | inr (t, e) ↦ ground (arith, step-now w t e)
  ]
