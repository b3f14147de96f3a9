-- ===== src/Examples/Ticking.antt =====
-- The endless loop `clock` of src/examples/clocks.cpp under `run_until`, for any number of rounds.
mod Rounds
use Prim.Native.String.{String}
use mathlib.Core.List.{append_assoc}
use libcxxdes.Base.{
  ℕ, zero, suc, ◌+◌, ◌*◌, ◌<◌, ◌≡◌, refl, sym, ap, ◌∙◌, Bool, true, false, Option, none, some, List,
  [], ◌∷◌, ◌++◌, arith,
}
use libcxxdes.Base.Int.{
  ℤ, pos, ◌+ℤ◌, ◌≤ℤ◌, ◌<ℤ◌, max_ℤ, eq_of_parts, +ℤ_parts, leb_ℤ, pos_part, neg_part,
}
use libcxxdes.Core.Token.{inherit}
use libcxxdes.Core.World.{World, comp_of}
use libcxxdes.Core.Queue.{PriorityQueue}
use libcxxdes.Core.Environment.{
  Step, idle, stepped, step, Run, finished, run_until, until_loop, settle, next_event, due,
}
use libcxxdes.Core.Timeout
use libcxxdes.Core.Timeout.{ticks, timeout}
use libcxxdes.Core.Coroutine.{start}
use libcxxdes.Core.Process.{
  Result, returned, raised, Body, Frame, fresh, suspended_on, Program, set_frame, await_in, drive,
  drive_at, jump_for, resume_frame, Leaf, Await, leaf_value, layer_value, sleep, Value, nothing,
  leaf_await, layer_await, single, co_return, co_throw, loop, loop_round, loop_next, inline,
  outside_try, await_then,
}
use libcxxdes.Core.Process.Sequence.{pop-single, running, settled, step-resumes}
use libcxxdes.Examples.Base.{
  Code, State, Line, line, print, leaf, delay, await_only, resume_code, Awaiter, Variables,
}
use libcxxdes.Examples.Endless.{forever, clock}
use libcxxdes.Examples.Ticking.Rounds.{IsTicking, step-IsTicking}

-- The lines of `n` rounds, the first at `t`.
abbrev pub tick_lines : ℕ → String → ℤ → ℕ → List Line
tick_lines p name t zero = []
tick_lines p name t (suc n) = line name t ∷ tick_lines p name (t +ℤ pos p) n

later_is_max : (a b : ℤ) → a ≤ℤ b → max_ℤ a b ≡ b
later_is_max a b h = ground (arith, h, eq_of_parts a b)

module _ (p : ℕ) (name : String) where
  next-single :
      (q : PriorityQueue) (c tok : ℕ) (t : ℤ) (out : List Line) (w : State)
      → IsTicking p name c tok t out w
      → next_event q w ≡ some tok
  unfolding next_event
  next-single q c tok t out w s =
      let front : Option (ℕ × List ℕ) → Option ℕ =
        λ o. elim o [ none ↦ none | some (x, rest) ↦ some x ] in
      ap (λ l. front (q.pop (comp_of w) l)) s.queued ∙ ap front (pop-single q (comp_of w) tok)

  due-single :
      (q : PriorityQueue) (c tok : ℕ) (t u : ℤ) (out : List Line) (w : State)
      → IsTicking p name c tok t out w
      → due q u w ≡ leb_ℤ t u
  unfolding due
  due-single q c tok t u out w s =
      ap (λ o. elim o [ none ↦ false | some x ↦ leb_ℤ (w.token x).time u ])
        (next-single q c tok t out w s)
      ∙ ap (λ x. leb_ℤ x u) s.at_time

  module _ (q : PriorityQueue) (c tok : ℕ) (t u : ℤ) (out : List Line) (w : State)
      (s : IsTicking p name c tok t out w) (fuel : ℕ) where
    loop-stops : u <ℤ t → until_loop q resume_code (suc fuel) u w ≡ finished w
    unfolding until_loop
    loop-stops h =
        let late : due q u w ≡ false = due-single q c tok t u out w s ∙ ground arith in
        rw (until_loop, late)

    loop-ticks :
        (v : State)
        → t ≤ℤ u
        → step q resume_code w ≡ stepped v
        → until_loop q resume_code (suc fuel) u w ≡ until_loop q resume_code fuel u v
    unfolding until_loop
    loop-ticks v h e =
        let early : due q u w ≡ true = due-single q c tok t u out w s ∙ ground arith in
        rw (until_loop, early, e)

  last_tick : (r : ℕ) (t u : ℤ) → r < p → u ≡ t +ℤ pos (0 * p + r) → (t ≤ℤ u) × (u <ℤ t +ℤ pos p)
  last_tick r t u small far = (
    omega (arith, ap pos_part far, ap neg_part far, +ℤ_parts t (pos (0 * p + r))),
    omega
        (arith, ap pos_part far, ap neg_part far, +ℤ_parts t (pos (0 * p + r)), +ℤ_parts t (pos p)),
  )

  next_tick :
      (k r : ℕ) (t u : ℤ)
      → u ≡ t +ℤ pos (suc k * p + r)
      → (t ≤ℤ u) × (u ≡ t +ℤ pos p +ℤ pos (k * p + r))
  next_tick k r t u far = (
    omega (arith, ap pos_part far, ap neg_part far, +ℤ_parts t (pos (suc k * p + r))),
    far
        ∙ eq_of_parts _ _ (
            omega (
              arith,
              +ℤ_parts t (pos p),
              +ℤ_parts (t +ℤ pos p) (pos (k * p + r)),
              +ℤ_parts t (pos (suc k * p + r)),
            )),
  )

  -- How the loop of `run_until(u)` ends.
  abbrev TickedTo : ℤ → List Line → Run (Program Awaiter Value Variables) → Type 0
  TickedTo u out r = (v : State) × (r ≡ finished v) × (v.program.shared.out ≡ out) × (v.now ≤ℤ u)

  loop-TickedTo :
      (q : PriorityQueue) (k r fuel c tok : ℕ) (t u : ℤ) (out : List Line) (w : State)
      → IsTicking p name c tok t out w
      → r < p
      → u ≡ t +ℤ pos (k * p + r)
      → suc k < fuel
      → TickedTo u (out ++ tick_lines p name t (suc k)) (until_loop q resume_code fuel u w)
  loop-TickedTo q k r zero c tok t u out w s small far h = absurd (omega arith)
  loop-TickedTo q k r (suc zero) c tok t u out w s small far h = absurd (omega arith)
  loop-TickedTo q zero r (suc (suc fuel)) c tok t u out w s small far h =
      let (v, e, s', clock) = step-IsTicking p name q c tok t out w s in
      (
        v,
        loop-ticks q c tok t u out w s (suc fuel) v (last_tick r t u small far).0 e
            ∙ loop-stops q c w.token_count (t +ℤ pos p) u (out ++ line name t ∷ []) v s' fuel
                (last_tick r t u small far).1,
        s'.written,
        ground (arith, clock, (last_tick r t u small far).0),
      )
  loop-TickedTo q (suc k) r (suc (suc fuel)) c tok t u out w s small far h =
      let (v, e, s', clock) = step-IsTicking p name q c tok t out w s in
      let (x, ran, printed, before) =
        loop-TickedTo q k r (suc fuel) c w.token_count (t +ℤ pos p) u (out ++ line name t ∷ []) v s'
          small (next_tick k r t u far).1 (omega arith) in
      (
        x,
        loop-ticks q c tok t u out w s (suc fuel) v (next_tick k r t u far).0 e ∙ ran,
        printed ∙ append_assoc out (line name t ∷ []) (tick_lines p name (t +ℤ pos p) (suc k)),
        before,
      )

  start-IsTicking :
      (c : ℕ) (priority : ℤ) (w : State)
      → w.queue ≡ []
      → w.program.frames c ≡ fresh (clock p name)
      → pos 0 ≤ℤ (w.coroutine c).latency
      → 0 < w.program.rounds
      → IsTicking p name c w.token_count
          (w.now +ℤ (w.coroutine c).latency)
          w.program.shared.out
          (start c priority w)
  unfolding start resume_frame
  start-IsTicking c priority w empty body late may = record {
    queued = ground arith;
    at_time = ground arith;
    no_handler = ground arith;
    resumes = ground arith;
    not_past = omega (arith, +ℤ_parts w.now (w.coroutine c).latency);
    written = refl;
    may_loop = may;
    goes_on = λ v e.
        let same : v.program.frames c ≡ fresh (clock p name) = e ∙ body in rw (resume_frame, same);
  }

  -- The endless loop `clock` of clocks.cpp with period `p`, as the body of a coroutine whose
  -- latency is not negative, started on an empty queue in a program that may run loops: with fuel
  -- beyond `k + 1`, `run_until` of `k` periods and a rest shorter than one behind the start ends,
  -- with the clock at that time, and the coroutine has printed its line `k + 1` times, a period
  -- apart from the start on.
  pub clock-ticks :
      (q : PriorityQueue) (fuel k r c : ℕ) (priority : ℤ) (w : State)
      → w.queue ≡ []
      → w.program.frames c ≡ fresh (clock p name)
      → pos 0 ≤ℤ (w.coroutine c).latency
      → 0 < w.program.rounds
      → r < p
      → suc k < fuel
      → (v : State) × (run_until q resume_code fuel
            (w.now +ℤ (w.coroutine c).latency +ℤ pos (k * p + r))
            (start c priority w)
          ≡ finished v)
        × (v.program.shared.out
            ≡ w.program.shared.out ++ tick_lines p name (w.now +ℤ (w.coroutine c).latency) (suc k))
        × (v.now ≡ w.now +ℤ (w.coroutine c).latency +ℤ pos (k * p + r))
  unfolding run_until settle
  clock-ticks q fuel k r c priority w empty body late may small h =
      let t : ℤ = w.now +ℤ (w.coroutine c).latency in
      let u : ℤ = t +ℤ pos (k * p + r) in
      let (v, ran, printed, before) =
        loop-TickedTo q k r fuel c w.token_count t u w.program.shared.out (start c priority w)
          (start-IsTicking c priority w empty body late may) small refl h in
      (
        record v { now = max_ℤ v.now u },
        ap (settle q resume_code u) ran,
        printed,
        later_is_max v.now u before,
      )
