-- ===== src/Examples/Endless.antt =====
-- src/examples/clocks.cpp, bug.cpp and interrupt_test.cpp: loops without an end
use Prim.Native.String.{String}
use libcxxdes.Base.{ℕ, Option, none, some, List, [], ◌∷◌}
use libcxxdes.Base.Int.{ℤ}
use libcxxdes.Core.Queue.Selection.{selection}
use libcxxdes.Core.Coroutine.{new_coroutine}
use libcxxdes.Core.Environment.{finished, aborted, out_of_fuel, run_for}
use libcxxdes.Core.Process.{
  returned, raised, Body, co_return, co_throw, call, loop, sequential_body, join_void, single,
  composed, either_of, both_of,
}
use libcxxdes.Examples.Base.{
  Code, State, Line, print, leaf, delay, await_only, await_call, run_code, resume_code,
}

-- `while (true) …`, where the rounds return the state of the next one.
unfoldable pub forever : {C V G : Type 0} → Body C V G → Body C V G
forever b = loop (λ s. b) 0 (λ r. elim r [ returned x ↦ co_return none | raised e ↦ co_throw e ])

-- clocks.cpp: `clock`, and `clock_class::operator()`
unfoldable pub clock : ℕ → String → Code
unfolding forever
clock period name = forever (print name (await_only (leaf (delay period)) (co_return (some 0))))

-- bug.cpp: `clocks`
unfoldable pub clocks : ℕ → Code
unfolding forever
clocks i = await_only (leaf (delay i)) (forever (await_only (leaf (delay 5)) (co_return (some 0))))

-- interrupt_test.cpp: `foo`, `bar`, and the coroutines of `ps` in `co_main`
unfoldable pub foo : Code
unfolding forever
foo = forever (await_only (leaf (delay 10)) (co_return (some 0)))

unfoldable pub bar : Code
unfolding foo
bar = await_call foo (co_return none)

unfoldable pub composed_loops : Code
unfolding foo either_of both_of
composed_loops = call foo (λ a. call foo (λ b. call foo (λ c.
    await_only
      (composed (
        either_of (composed (both_of (join_void (new_coroutine a)) (join_void (new_coroutine b))))
          (single (join_void (new_coroutine c)))))
      (co_return none))))

unfoldable pub looped_sequence : Code
unfolding foo sequential_body
looped_sequence = call foo (λ a. call foo (λ b.
    await_call
      (sequential_body
        (leaf (join_void (new_coroutine a)) ∷ leaf (join_void (new_coroutine b)) ∷ []))
      (co_return none)))

unfoldable pub looped_bar : Code
unfolding bar
looped_bar = await_call bar (co_return none)

unfoldable pub interrupt_main : Code → Code
interrupt_main p = await_call p (co_return none)

-- `env.run_for(t)`, and what is printed by then.
unfoldable pub run_bound_for : ℕ → ℤ → State → Option (ℤ × List Line)
unfolding run_code
run_bound_for fuel t w = elim (run_for selection resume_code fuel t w) [
  | finished v ↦ some (v.now, v.program.shared.out)
  | aborted e v ↦ none
  | out_of_fuel ↦ none
]
