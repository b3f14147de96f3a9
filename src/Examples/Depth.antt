-- ===== src/Examples/Depth.antt =====
-- The subroutine `bar` of `subroutines4` in src/examples/pitfall.cpp, which calls itself to any
-- depth.
use mathlib.Core.Path.{fun_ext}
use libcxxdes.Base.{
  ℕ, zero, suc, ◌+◌, ◌*◌, ◌<◌, ◌≡◌, refl, ap, ◌∙◌, false, none, List, [], ◌∷◌, map, length, arith,
}
use libcxxdes.Base.Int.{ℤ, pos, ◌+ℤ◌, ◌≤ℤ◌}
use libcxxdes.Core.World.{World}
use libcxxdes.Core.Queue.{PriorityQueue}
use libcxxdes.Core.Environment.{finished, run}
use libcxxdes.Core.Coroutine.{start}
use libcxxdes.Core.Process.{
  Body, co_return, co_await, Leaf, Value, Result, returned, raised, fresh, Program, resume_frame,
  leaf_await, inline_then, sequential_body, await_then, outside_try,
}
use libcxxdes.Core.Process.Sequence.{sleep_of, total, IsOver, sequential_delays-end}
use libcxxdes.Examples.Subroutines.{bar4}

abbrev hundreds : ℕ → List ℕ
hundreds zero = []
hundreds (suc i) = 100 ∷ hundreds i

total-hundreds : (i : ℕ) → total (hundreds i) ≡ i * 100
total-hundreds zero = refl
total-hundreds (suc i) = omega (arith, total-hundreds i)

length-hundreds : (i : ℕ) → length (hundreds i) ≡ i
length-hundreds zero = refl
length-hundreds (suc i) = ap suc (length-hundreds i)

module _ {G : Type 0} where
  outside_try_then_return :
      (s : Body Leaf Value G) (r : Result Value)
      → inline_then s (λ u. co_return none) ≡ s
      → inline_then (outside_try (λ v. s) r) (λ u. co_return none) ≡ outside_try (λ v. s) r
  unfolding inline_then outside_try
  outside_try_then_return s (returned v) e = e
  outside_try_then_return s (raised x) e = refl

  -- Behind a sequence, a subroutine that returns nothing changes nothing.
  sequential_then_return :
      (xs : List Leaf)
      → inline_then {C = Leaf} {V = Value} {G = G} (sequential_body xs) (λ u. co_return none)
        ≡ sequential_body xs
  unfolding inline_then sequential_body
  sequential_then_return [] = refl
  sequential_then_return (a ∷ xs) =
      ap (co_await a)
        (fun_ext λ r. outside_try_then_return (sequential_body xs) r (sequential_then_return xs))

  bar4_eq : (i : ℕ) → bar4 {G = G} i ≡ sequential_body (map sleep_of (hundreds i))
  unfolding bar4 sequential_body
  bar4_eq zero = refl
  bar4_eq (suc i) =
      ap (λ b. await_then (sleep_of 100) (λ v. b))
        (ap (λ s. inline_then s (λ u. co_return none)) (bar4_eq i)
          ∙ sequential_then_return (map sleep_of (hundreds i)))

  -- The recursive subroutine `bar` of pitfall.cpp, to any depth `i`, as the body of a shared
  -- coroutine that nobody awaits and whose latency is not negative, started on an empty queue:
  -- with fuel beyond `i + 1`, `run` ends with no event left, the coroutine complete, and the clock
  -- moved by the latency and `i * 100`.
  pub bar4-ends :
      (q : PriorityQueue) (fuel : ℕ) (c i : ℕ) (p : ℤ) (w : World (Program Leaf Value G))
      → w.queue ≡ []
      → (w.coroutine c).unique ≡ false
      → (w.coroutine c).completion_tokens ≡ []
      → w.program.frames c ≡ fresh (bar4 i)
      → pos 0 ≤ℤ (w.coroutine c).latency
      → i + 1 < fuel
      → (v : World (Program Leaf Value G)) × (run q (resume_frame leaf_await) fuel (start c p w)
          ≡ finished v)
        × IsOver c (w.now +ℤ (w.coroutine c).latency +ℤ pos (i * 100)) v
  bar4-ends q fuel c i p w empty shared nobody body late h =
      let (v, ran, over) =
        sequential_delays-end q fuel c p (hundreds i) w empty shared nobody
          (body ∙ ap (λ b. fresh b) (bar4_eq i)) late (omega (arith, length-hundreds i, h)) in
      (
        v,
        ran,
        record {
          no_event = over.no_event;
          is_complete = over.is_complete;
          clock =
              over.clock ∙ ap (λ n. w.now +ℤ (w.coroutine c).latency +ℤ pos n) (total-hundreds i);
        },
      )
