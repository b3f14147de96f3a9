-- ===== src/Examples/Tests.antt =====
-- Runs of src/tests: what they check of values and of the clock.
use libcxxdes.Base.{◌≡◌, refl, Bool, true, false, Option, none, some, [], ◌∷◌}
use libcxxdes.Base.Int.{ℤ, pos}
use libcxxdes.Core.Simulation
use libcxxdes.Core.Simulation.{Simulated, ended, unfinished}
use libcxxdes.Core.Process.{Program, Value}
use libcxxdes.Examples.Base.{
  Awaiter, Variables, new_simulation, run_code_on, line, line_of, run_code, printed,
}
use libcxxdes.Core.Timeout.{instant}
use libcxxdes.Examples.ControlFlow.{
  async1_main, compositions1_main, compositions2_main, ready_children_main,
}
use libcxxdes.Examples.Processes.{
  latencies_main, async_unique_main, basic_main, out_of_scope_main, completed_main, priorities_main,
  recursion_main, dangling_solution_main, not_dangling_main, return_coroutine_main,
}

basic_run : printed (run_code basic_main 90) ≡ some (false, line_of "r" (pos 0) 10 ∷ [])
unfolding run_code basic_main
basic_run = refl

out_of_scope_run : printed (run_code out_of_scope_main 90) ≡ some (false, line "now" (pos 1) ∷ [])
unfolding run_code out_of_scope_main
out_of_scope_run = refl

priorities_run :
    printed (run_code priorities_main 90)
    ≡ some (
      false,
      line_of "counter" (pos 1) 100
          ∷ line_of "counter" (pos 1) 101
          ∷ line_of "counter" (pos 1) 102
          ∷ line_of "counter" (pos 2) 100
          ∷ line_of "counter" (pos 2) 101
          ∷ line_of "counter" (pos 2) 102
          ∷ line_of "counter" (pos 3) 100
          ∷ line_of "counter" (pos 3) 101
          ∷ line_of "counter" (pos 3) 102
          ∷ [],
    )
unfolding run_code priorities_main
priorities_run = refl

recursion_run : printed (run_code recursion_main 90) ≡ some (false, line_of "r" (pos 0) 720 ∷ [])
unfolding run_code recursion_main
recursion_run = refl

dangling_solution_run : printed (run_code dangling_solution_main 90) ≡ some (false, [])
unfolding run_code dangling_solution_main
dangling_solution_run = refl

not_dangling_run : printed (run_code not_dangling_main 90) ≡ some (false, [])
unfolding run_code not_dangling_main
not_dangling_run = refl

return_coroutine_run :
    printed (run_code return_coroutine_main 90)
    ≡ some (false, line "now" (pos 5) ∷ line "complete" (pos 5) ∷ line_of "value" (pos 5) 5 ∷ [])
unfolding run_code return_coroutine_main
return_coroutine_run = refl

-- `sim.run_for(5)` and once more: `now` and `completed` behind each.
abbrev observed : Simulated (Program Awaiter Value Variables) → Option (ℤ × Bool)
observed (ended s) = some (s.env.now, s.env.program.shared.completed)
observed (Simulation.raised e s) = none
observed unfinished = none

abbrev run_again :
    Simulated (Program Awaiter Value Variables) → Simulated (Program Awaiter Value Variables)
run_again (ended s) = run_code_on completed_main (pos 5) 20 s
run_again (Simulation.raised e s) = unfinished
run_again unfinished = unfinished

run_for_stops :
    observed (run_code_on completed_main (pos 5) 20 new_simulation) ≡ some (pos 5, false)
unfolding run_code_on completed_main
run_for_stops = refl

run_for_completes :
    observed (run_again (run_code_on completed_main (pos 5) 20 new_simulation))
    ≡ some (pos 10, true)
unfolding run_code_on completed_main
run_for_completes = refl

latencies_run :
    printed (run_code latencies_main 40)
    ≡ some (false, line "start" (pos 6) ∷ line "end" (pos 11) ∷ line "now" (pos 19) ∷ [])
unfolding run_code latencies_main
latencies_run = refl

async_unique_run :
    printed (run_code async_unique_main 40)
    ≡ some (false, line "now" (pos 0) ∷ line_of "value" (pos 5) 42 ∷ [])
unfolding run_code async_unique_main
async_unique_run = refl

async1_run :
    printed (run_code async1_main 90)
    ≡ some (false, line "now" (pos 0) ∷ line "now" (pos 5) ∷ line "now" (pos 100) ∷ [])
unfolding run_code async1_main
async1_run = refl

compositions1_run :
    printed (run_code compositions1_main 90)
    ≡ some (
      false,
      line "now" (pos 20)
          ∷ line "now" (pos 30)
          ∷ line "now" (pos 130)
          ∷ line "now" (pos 190)
          ∷ line "now" (pos 290)
          ∷ line "now" (pos 350)
          ∷ [],
    )
unfolding run_code compositions1_main
compositions1_run = refl

compositions2_run :
    printed (run_code compositions2_main 90)
    ≡ some (false, line "now" (pos 0) ∷ line "now" (pos 0) ∷ line "now" (pos 100) ∷ [])
unfolding run_code compositions2_main
compositions2_run = refl

ready_children_run :
    printed (run_code ready_children_main 90) ≡ some (false, line "now" (pos 5) ∷ [])
unfolding run_code ready_children_main instant
ready_children_run = refl
