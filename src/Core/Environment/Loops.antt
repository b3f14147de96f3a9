-- ===== src/Core/Environment/Loops.antt =====
-- include/cxxdes/core/impl/environment.ipp: `run` and `run_until`. `measure` bounds the number of
-- events that the program still has to process: a program whose events breed events at one time
-- for ever has no such measure, and its `run` does not return.
use libcxxdes.Base.{
  ℕ, zero, suc, ◌≡◌, refl, sym, ◌∙◌, ◌<◌, inl, inr, ◌⊎◌, ◌≢◌, true, false, none, Option-cases, In,
  [], arith, Bool-cases,
}
use libcxxdes.Base.Int.{ℤ, ◌<ℤ◌, max_ℤ}
use libcxxdes.Core.Token.{Exception}
use libcxxdes.Core.Queue.{PriorityQueue}
use libcxxdes.Core.World.{World}
use libcxxdes.Core.Environment.Order.{
  AllPlain, next_event-first, next_event-some, next_event-popped, queue-empty,
}
use libcxxdes.Core.Environment.Clock.{step-idle, step-some, not-Before-time}
use libcxxdes.Core.Environment.Defs.{
  Step, idle, stepped, failed, Run, finished, aborted, out_of_fuel, next_event, due, process, step,
  run, until_loop, settle, run_until,
}

module _ {S : Type 0} (q : PriorityQueue) (resume : ℕ → World S → World S) where
  -- Steps, one after another, of events that `P` holds of.
  pub data Steps (P : World S → Type 0) : World S → World S → Type 0 where
    here : {w : World S} → Steps P w w
    next : {w u v : World S} → P w → step q resume w ≡ stepped u → Steps P u v → Steps P w v

  -- Where `run` may end: with no event left, or in a step that throws.
  abbrev pub RunEnds : World S → Run S → Type 0
  RunEnds w (finished v) = Steps (λ _. Unit {0}) w v × (v.queue ≡ [])
  RunEnds w (aborted e v) =
      (u : World S) × Steps (λ _. Unit {0}) w u × (step q resume u ≡ failed e v)
  RunEnds w out_of_fuel = ⊥

  -- A due event at `t`, and the end of `run_until`: every event that was taken was due, and every
  -- event that is left is later than `t`.
  abbrev pub IsDue : ℤ → World S → Type 0
  IsDue t w = due q t w ≡ true

  abbrev pub UntilEnds : ℤ → World S → Run S → Type 0
  UntilEnds t w (finished v) =
      (u : World S) × Steps (IsDue t) w u
      × (due q t u ≡ false)
      × ((i : ℕ) → In i u.queue → t <ℤ (u.token i).time)
      × (v ≡ record u { now = max_ℤ u.now t })
  UntilEnds t w (aborted e v) =
      (u : World S) × Steps (IsDue t) w u × IsDue t u × (step q resume u ≡ failed e v)
  UntilEnds t w out_of_fuel = ⊥

  -- In a queue without exception tokens, if no next event is due by `t`, then every event is later
  -- than `t`.
  pub due-later :
      (t : ℤ) (w : World S)
      → AllPlain w
      → due q t w ≡ false
      → (i : ℕ) → In i w.queue
      → t <ℤ (w.token i).time
  unfolding due
  due-later t w plain e i m =
      let (x, found) = next_event-some q w i m in
      let (_, first) = next_event-first q w x plain found in
      ground (arith, found, not-Before-time (w.token i) (w.token x) (first i m))

  process-not-idle : (tkn : ℕ) (w v : World S) → process q resume tkn w ≢ idle v
  unfolding process
  process-not-idle tkn w v e = ground arith

  -- A step that returns false has found the queue empty, and changed nothing.
  step-idle-inv :
      (w v : World S)
      → step q resume w ≡ idle v
      → (v ≡ w) × (w.queue ≡ []) × (next_event q w ≡ none)
  step-idle-inv w v e = elim (Option-cases (next_event q w)) [
    | inl none_left ↦
        (ground (arith, step-idle q resume w none_left), queue-empty q w none_left, none_left)
    | inr (t, found) ↦
        let (t', rest, popped) = next_event-popped q w t found in
        absurd (process-not-idle t' _ v (sym (step-some q resume w t' rest popped) ∙ e))
  ]

  Step-cases :
      (s : Step S)
      → ((v : World S) × (s ≡ idle v))
        ⊎ ((v : World S) × (s ≡ stepped v))
        ⊎ ((e : Exception) × (v : World S) × (s ≡ failed e v))
  Step-cases (idle v) = inl (v, refl)
  Step-cases (stepped v) = inr (inl (v, refl))
  Step-cases (failed e v) = inr (inr (e, v, refl))

  RunEnds-next :
      (w u : World S) (r : Run S) → step q resume w ≡ stepped u → RunEnds u r → RunEnds w r
  RunEnds-next w u (finished v) e (s, h) = (next tt e s, h)
  RunEnds-next w u (aborted x v) e (y, s, h) = (y, next tt e s, h)
  RunEnds-next w u out_of_fuel e h = h

  -- The same for the loop of `run_until`, before the clock is set.
  abbrev LoopEnds : ℤ → World S → Run S → Type 0
  LoopEnds t w (finished u) =
      Steps (IsDue t) w u × (due q t u ≡ false) × ((i : ℕ) → In i u.queue → t <ℤ (u.token i).time)
  LoopEnds t w (aborted e v) =
      (u : World S) × Steps (IsDue t) w u × IsDue t u × (step q resume u ≡ failed e v)
  LoopEnds t w out_of_fuel = ⊥

  LoopEnds-next :
      (t : ℤ) (w u : World S) (r : Run S)
      → IsDue t w
      → step q resume w ≡ stepped u
      → LoopEnds t u r
      → LoopEnds t w r
  LoopEnds-next t w u (finished v) d e (s, h, later) = (next d e s, h, later)
  LoopEnds-next t w u (aborted x v) d e (y, s, k, h) = (y, next d e s, k, h)
  LoopEnds-next t w u out_of_fuel d e h = h

  settle-Ends :
      (t : ℤ) (w : World S) (r : Run S) → LoopEnds t w r → UntilEnds t w (settle q resume t r)
  unfolding settle
  settle-Ends t w (finished u) (s, h, later) = (u, s, h, later, refl)
  settle-Ends t w (aborted x v) h = h
  settle-Ends t w out_of_fuel h = h

  due-some : (t : ℤ) (w : World S) → IsDue t w → next_event q w ≢ none
  unfolding due
  due-some t w d e = ground arith

  -- The worlds that a program runs through satisfy `P`, and each step takes the measure down.
  module _ (P : World S → Type 0) (measure : World S → ℕ)
      (falls : (w v : World S)
        → P w
        → step q resume w ≡ stepped v
        → P v × (measure v < measure w)) where
    -- If every step from a world that satisfies `P` keeps `P` and takes a measure down, then with
    -- fuel beyond the measure `run` ends: with an empty queue after a number of steps, or in the
    -- first step that throws.
    pub run-Ends :
        (fuel : ℕ) (w : World S) → P w → measure w < fuel → RunEnds w (run q resume fuel w)
    unfolding run
    run-Ends zero w p h = elim h [ ]
    run-Ends (suc fuel) w p h = elim (Step-cases (step q resume w)) [
      | inl (v, e) ↦ let (same, empty, _) = step-idle-inv w v e in rw (run, e, same) (here, empty)
      | inr (inl (v, e)) ↦
          rw (run, e)
            (RunEnds-next w v _ e
              (run-Ends fuel v (falls w v p e).0 (omega (arith, (falls w v p e).1))))
      | inr (inr (x, v, e)) ↦ rw (run, e) (w, here, e)
    ]

    until_loop-Ends :
        ((w : World S) → P w → AllPlain w)
        → (fuel : ℕ) (t : ℤ) (w : World S) → P w
        → measure w < fuel
        → LoopEnds t w (until_loop q resume fuel t w)
    unfolding until_loop
    until_loop-Ends plain zero t w p h = elim h [ ]
    until_loop-Ends plain (suc fuel) t w p h = elim (Bool-cases (due q t w)) [
      | inr e ↦ rw (until_loop, e) (here, e, due-later t w (plain w p) e)
      | inl d ↦ elim (Step-cases (step q resume w)) [
        | inl (v, e) ↦ absurd (due-some t w d (step-idle-inv w v e).2)
        | inr (inl (v, e)) ↦
            rw (until_loop, d, e)
              (LoopEnds-next t w v _ d e (
                until_loop-Ends plain fuel t v (falls w v p e).0
                  (omega (arith, (falls w v p e).1))))
        | inr (inr (x, v, e)) ↦ rw (until_loop, d, e) (w, here, d, e)
      ]
    ]

    -- If no world that satisfies `P` has an exception token in its queue, and every step from such
    -- a world keeps `P` and takes a measure down, then with fuel beyond the measure `run_until`
    -- ends. Either it has taken only events that were due by `t`, every event that is left is
    -- later than `t`, and `now` is the later of its value and `t`; or a step for a due event has
    -- thrown, and the exception leaves the loop at once.
    pub run_until-Ends :
        ((w : World S) → P w → AllPlain w)
        → (fuel : ℕ) (t : ℤ) (w : World S) → P w
        → measure w < fuel
        → UntilEnds t w (run_until q resume fuel t w)
    unfolding run_until
    run_until-Ends plain fuel t w p h = settle-Ends t w _ (until_loop-Ends plain fuel t w p h)
