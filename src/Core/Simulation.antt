-- ===== src/Core/Simulation.antt =====
-- include/cxxdes/core/simulation.hpp. `co_main` stands for the program's `Derived::co_main()`: it
-- makes a coroutine, and returns its handle.
use libcxxdes.Base.{ℕ, ◌≡◌, refl, ◌∙◌, ◌⊎◌, Bool, true, Bool-cases, inl, inr, if◌then◌else◌, arith}
use libcxxdes.Base.Int.{ℤ}
use libcxxdes.Misc.Time.{TimeExpr}
use libcxxdes.Core.Token.{Exception}
use libcxxdes.Core.Queue.{PriorityQueue}
use libcxxdes.Core.World.{World, Outcome, done, threw}
use libcxxdes.Core.Coroutine.{Coroutine, bind_to}
use libcxxdes.Core.Environment.{Run, finished, aborted, out_of_fuel, run, run_for, run_for_expr}

pub record Simulation (S : Type 0) : Type 0 where
  pub env : World S
  pub bound : Bool

-- How `run` and `run_for` end.
pub data Simulated (S : Type 0) : Type 0 where
  ended : Simulation S → Simulated S
  raised : Exception → Simulation S → Simulated S
  unfinished : Simulated S

module _ {S : Type 0} where
  -- The outcome of the environment's loop, with the flag beside it.
  unfoldable pub wrap : Bool → Run S → Simulated S
  wrap b (finished w) = ended (record { env = w; bound = b })
  wrap b (aborted e w) = raised e (record { env = w; bound = b })
  wrap b out_of_fuel = unfinished

  wrap-bound : (b : Bool) (r : Run S) (t : Simulation S) → wrap b r ≡ ended t → t.bound ≡ b
  unfolding wrap
  wrap-bound b (finished w) t e = ground arith
  wrap-bound b (aborted x w) t e = ground arith
  wrap-bound b out_of_fuel t e = ground arith

module _ {S : Type 0} (co_main : World S → Coroutine × World S) where
  -- `bind`: an exception of `env.bind` leaves the flag as it is.
  unfoldable pub bind_main : Simulation S → Outcome (Simulation S)
  bind_main s = if s.bound then done s else elim (let (p, w) = co_main s.env in bind_to p w) [
    | threw e (p, v) ↦ threw e (record s { env = v })
    | done (p, v) ↦ done (record { env = v; bound = true })
  ]

  -- `bind`, and then a loop of the environment.
  unfoldable pub bind_then : (World S → Run S) → Simulation S → Simulated S
  unfolding bind_main wrap
  bind_then loop s = elim (bind_main s) [
    | threw e s' ↦ raised e s'
    | done s' ↦ wrap s'.bound (loop s'.env)
  ]

  module _ (q : PriorityQueue) (resume : ℕ → World S → World S) where
    -- `run`, `run_for` of ticks, and `run_for` of a time expression
    unfoldable pub simulate : ℕ → Simulation S → Simulated S
    unfolding bind_then
    simulate fuel s = bind_then (run q resume fuel) s

    unfoldable pub simulate_for : ℕ → ℤ → Simulation S → Simulated S
    unfolding bind_then
    simulate_for fuel t s = bind_then (run_for q resume fuel t) s

    unfoldable pub simulate_for_expr : ℕ → TimeExpr → Simulation S → Simulated S
    unfolding bind_then
    simulate_for_expr fuel t s = bind_then (run_for_expr q resume fuel t) s

  bound_behind : (s t : Simulation S) → bind_main s ≡ done t → t.bound ≡ true
  unfolding bind_main
  bound_behind s t e = elim (Bool-cases s.bound) [
    | inl b ↦ ground (arith, b)
    | inr b ↦ ground (arith, b)
  ]

  already :
      (loop : World S → Run S) (t : Simulation S)
      → t.bound ≡ true
      → bind_then loop t ≡ wrap true (loop t.env)
  unfolding bind_then bind_main
  already loop t b = ground (arith, b)

  bind_main_cases :
      (r : Outcome (Simulation S))
      → ((x : Exception) × (u : Simulation S) × (r ≡ threw x u))
        ⊎ ((u : Simulation S) × (r ≡ done u))
  bind_main_cases (threw x u) = inl (x, u, refl)
  bind_main_cases (done u) = inr (u, refl)

  ended_bound :
      (loop : World S → Run S) (s t : Simulation S) → bind_then loop s ≡ ended t → t.bound ≡ true
  unfolding bind_then
  ended_bound loop s t e = elim (bind_main_cases (bind_main s)) [
    | inl (x, u, h) ↦ absurd (ground (arith, h))
    | inr (u, h) ↦ wrap-bound u.bound (loop u.env) t (ground (arith, h)) ∙ bound_behind s u h
  ]

  -- After a `run` or `run_for` of a simulation that ended, the next one of either kind does not
  -- bind `co_main` again: it is the environment's loop alone.
  pub bind_then-once :
      (first second : World S → Run S) (s t : Simulation S)
      → bind_then first s ≡ ended t
      → bind_then second t ≡ wrap true (second t.env)
  bind_then-once first second s t e = already second t (ended_bound first s t e)
