-- ===== src/Core/Environment/Defs.antt =====
-- include/cxxdes/core/impl/environment.ipp: the event loop. The queue is any `PriorityQueue`;
-- `resume` stands for `coroutine_data::resume` of a coroutine whose body the program wrote: it
-- acts on the world through the library, and no exception leaves it (`unhandled_exception` catches
-- them all).
use libcxxdes.Base.{
  ℕ, zero, suc, Bool, true, false, Option, none, some, List, [], ◌∷◌, if◌then◌else◌,
}
use libcxxdes.Base.Int.{ℤ, pos, ◌+ℤ◌, ◌*ℤ◌, leb_ℤ, max_ℤ}
use libcxxdes.Misc.Time.{Time, TimeExpr, expr_count}
use libcxxdes.Core.Token.{Exception, used_environment}
use libcxxdes.Core.Queue.{PriorityQueue}
use libcxxdes.Core.World.{World, Outcome, done, threw, comp_of, set_coroutine}
use libcxxdes.Core.Composition.{invoke}

module _ {S : Type 0} where
  -- `t()`
  unfoldable pub t_of : World S → Time
  t_of w = record { t = w.now *ℤ w.prec.t; u = w.prec.u }

  -- The setters `time_unit(time)` and `time_precision(time)`.
  unfoldable pub set_time_unit : Time → World S → Outcome (World S)
  set_time_unit x w = if w.used then threw used_environment w else done (record w { unit = x })

  unfoldable pub set_time_precision : Time → World S → Outcome (World S)
  set_time_precision x w = if w.used then threw used_environment w else done (record w { prec = x })

  -- `real_to_sim` of a time expression
  unfoldable pub real_to_sim : World S → TimeExpr → ℤ
  real_to_sim w n = expr_count n w.prec w.unit

  -- `coroutine_data::destroy`
  unfoldable pub destroy : ℕ → World S → World S
  unfolding set_coroutine
  destroy c w = set_coroutine c (record (w.coroutine c) { complete = true; call_stack = [] }) w

  -- The loop of `reset` over the coroutines.
  unfoldable pub destroy_incomplete : List ℕ → World S → World S
  unfolding destroy
  destroy_incomplete [] w = w
  destroy_incomplete (c ∷ cs) w =
      destroy_incomplete cs (if (w.coroutine c).complete then w else destroy c w)

  -- `reset`: the tokens left in the queue are released.
  unfoldable pub reset : World S → World S
  unfolding destroy_incomplete
  reset w =
      let w' = destroy_incomplete w.coroutines (record w { coroutines = [] }) in
      record w' { queue = []; now = pos 0 }

-- What one call of `step` returns: false, true, or an exception.
pub data Step (S : Type 0) : Type 0 where
  idle : World S → Step S
  stepped : World S → Step S
  failed : Exception → World S → Step S

-- What a loop ends in, and the fuel that ran out.
pub data Run (S : Type 0) : Type 0 where
  finished : World S → Run S
  aborted : Exception → World S → Run S
  out_of_fuel : Run S

module _ {S : Type 0} (q : PriorityQueue) where
  -- `next_event`
  unfoldable pub next_event : World S → Option ℕ
  next_event w = elim (q.pop (comp_of w) w.queue) [ none ↦ none | some (tkn, rest) ↦ some tkn ]

  -- Whether there is a next event at or before `t`.
  unfoldable pub due : ℤ → World S → Bool
  unfolding next_event
  due t w = elim (next_event w) [ none ↦ false | some tkn ↦ leb_ℤ (w.token tkn).time t ]

module _ {S : Type 0} (q : PriorityQueue) (resume : ℕ → World S → World S) where
  -- The part of `step` behind the pop and the update of `now_`.
  unfoldable pub process : ℕ → World S → Step S
  process tkn w = elim (w.token tkn).handler [
    | some h ↦ elim (invoke h tkn w) [ done w' ↦ stepped w' | threw e w' ↦ failed e w' ]
    | none ↦ elim (w.token tkn).coro_data [
      | some c ↦
          let w' = resume c (record w { current = some c }) in
          stepped (record w' { current = none })
      | none ↦ elim (w.token tkn).eptr [ some e ↦ failed e w | none ↦ stepped w ]
    ]
  ]

  -- `now_ = std::max(tkn->time, now_)`, with the token taken out of the queue.
  unfoldable pub advance : ℕ → List ℕ → World S → World S
  advance tkn rest w = record w { queue = rest; now = max_ℤ (w.token tkn).time w.now }

  unfoldable pub step : World S → Step S
  unfolding process advance
  step w = elim (q.pop (comp_of w) w.queue) [
    | none ↦ idle w
    | some (tkn, rest) ↦ process tkn (advance tkn rest w)
  ]

  -- `run`: `while (step());`
  unfoldable pub run : ℕ → World S → Run S
  run zero w = out_of_fuel
  run (suc fuel) w = elim (step w) [
    | idle w' ↦ finished w'
    | stepped w' ↦ run fuel w'
    | failed e w' ↦ aborted e w'
  ]

  -- The loop of `run_until(time_integral t)`; the value of `step()` is not looked at.
  unfoldable pub until_loop : ℕ → ℤ → World S → Run S
  until_loop zero t w = out_of_fuel
  until_loop (suc fuel) t w = elim (due q t w) [
    | false ↦ finished w
    | true ↦ elim (step w) [
      | idle w' ↦ until_loop fuel t w'
      | stepped w' ↦ until_loop fuel t w'
      | failed e w' ↦ aborted e w'
    ]
  ]

  -- `now_ = std::max(now_, t)` behind that loop; an exception skips it.
  unfoldable pub settle : ℤ → Run S → Run S
  settle t (finished w) = finished (record w { now = max_ℤ w.now t })
  settle t (aborted e w) = aborted e w
  settle t out_of_fuel = out_of_fuel

  -- `run_until(time_integral t)`
  unfoldable pub run_until : ℕ → ℤ → World S → Run S
  unfolding until_loop settle
  run_until fuel t w = settle t (until_loop fuel t w)

  -- `run_until(time_expr t)`, `run_for(time_integral t)` and `run_for(time_expr t)`
  unfoldable pub run_until_expr : ℕ → TimeExpr → World S → Run S
  run_until_expr fuel t w = run_until fuel (real_to_sim w t) w

  unfoldable pub run_for : ℕ → ℤ → World S → Run S
  run_for fuel t w = run_until fuel (w.now +ℤ t) w

  unfoldable pub run_for_expr : ℕ → TimeExpr → World S → Run S
  run_for_expr fuel t w = run_until fuel (w.now +ℤ real_to_sim w t) w
