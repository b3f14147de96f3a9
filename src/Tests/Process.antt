-- ===== src/Tests/Process.antt =====
-- Coroutines of a program, and the agenda, at concrete inputs.
use libcxxdes.Base.{ℕ, ◌+◌, ◌≡◌, refl, ◌⊎◌, arith, false, none, List, [], ◌∷◌, map}
use libcxxdes.Base.Int.{pos, ◌+ℤ◌}
use libcxxdes.Core.World.{World}
use libcxxdes.Core.Queue.Selection.{selection}
use libcxxdes.Core.Coroutine.{start}
use libcxxdes.Core.Environment.{idle, finished, process, step, run, run_until}
use libcxxdes.Core.Environment.Agenda.{
  agenda, no_events, NoTies, Takes, step-Takes, step_unique, Agree,
}
use libcxxdes.Core.Process.{
  Body, Leaf, join, Value, Program, fresh, leaf_await, resume_frame, sequential_body,
}
use libcxxdes.Core.Process.Sequence.{sleep_of, IsOver, sequential_delays-end}
use libcxxdes.Examples.Values.{g}
use libcxxdes.Examples.Recursion.{Entered, Left, g-returns}
use libcxxdes.Examples.Base.{State, new_world, resume_code}
use libcxxdes.Examples.Endless.{clock}
use libcxxdes.Examples.Ticking.{tick_lines, clock-ticks}
use libcxxdes.Examples.Subroutines.{bar4}
use libcxxdes.Examples.Depth.{bar4-ends}
use libcxxdes.Tests.Worlds.{event_at, world_with, idle_coroutine}
use libcxxdes.Tests.Scheduler.{two_events, nothing, two_events-AllPlain}

-- Coroutine 0 has the given body, and nothing runs.
abbrev program_of : Body Leaf Value (Unit {0}) → World (Program Leaf Value (Unit {0}))
program_of b = record {
  id = 0;
  now = pos 1;
  used = false;
  unit = (world_with []).unit;
  prec = (world_with []).prec;
  queue = [];
  coroutines = [];
  current = none;
  token = event_at;
  token_count = 9;
  handler = (world_with []).handler;
  handler_count = 1;
  coroutine = λ c. idle_coroutine;
  program = record {
    frames = λ c. fresh b;
    next_frame = 1;
    shared = tt;
    crashed = false;
    rounds = 0;
    stuck = false;
  };
}

abbrev three_delays : List ℕ
three_delays = 5 ∷ 0 ∷ 7 ∷ []

sequential_delays-end_example :
    (v : World (Program Leaf Value (Unit {0}))) × (run selection
        (resume_frame leaf_await)
        5
        (start 0 (pos 0) (program_of (sequential_body (map sleep_of three_delays))))
      ≡ finished v)
    × IsOver 0 (pos 1 +ℤ pos 2 +ℤ pos 12) v
sequential_delays-end_example =
    sequential_delays-end selection 5 0 (pos 0) three_delays
      (program_of (sequential_body (map sleep_of three_delays))) refl refl refl refl (omega arith)
      (omega arith)

bar4-ends_example :
    (v : World (Program Leaf Value (Unit {0}))) × (run selection
        (resume_frame leaf_await)
        5
        (start 0 (pos 0) (program_of (bar4 3)))
      ≡ finished v)
    × IsOver 0 (pos 1 +ℤ pos 2 +ℤ pos 300) v
bar4-ends_example =
    bar4-ends selection 5 0 3 (pos 0) (program_of (bar4 3)) refl refl refl refl (omega arith)
      (omega arith)

step-Takes_example :
    ((agenda two_events ≡ no_events) × (step selection nothing two_events ≡ idle two_events))
    ⊎ ((t : ℕ) × (v : World (Unit {0})) × Takes two_events t v
        × (step selection nothing two_events ≡ process selection nothing t v))
step-Takes_example = step-Takes selection nothing two_events two_events-AllPlain

two_events-NoTies : NoTies two_events
two_events-NoTies i j m n d = ground arith

step_unique_example : Agree two_events selection selection nothing
step_unique_example =
    step_unique two_events selection selection nothing two_events-AllPlain two_events-NoTies

-- Coroutine 0 is to start at 5, and token 4 waits for its end.
abbrev recursive_world : World (Program Leaf Value (Unit {0}))
recursive_world = record (program_of (g join 3)) {
  queue = 3 ∷ [];
  now = pos 5;
  coroutine = λ c. record idle_coroutine { completion_tokens = 4 ∷ [] };
}

recursive_world-Entered : Entered 0 3 4 (g join 3) recursive_world
recursive_world-Entered = record {
  queued = refl;
  at_now = refl;
  no_handler = refl;
  resumes = refl;
  body = refl;
  shared_state = refl;
  one_waits = refl;
  token_allocated = omega arith;
  frame_allocated = omega arith;
}

g-returns_example :
    (v : World (Program Leaf Value (Unit {0}))) × (x : ℕ) × (run selection
        (resume_frame leaf_await)
        8
        recursive_world
      ≡ run selection (resume_frame leaf_await) 1 v)
    × Left 0 4 x recursive_world v
    × (x + x ≡ 12)
g-returns_example = g-returns selection 1 3 0 3 4 recursive_world recursive_world-Entered

-- Coroutine 0 is a clock of period 2.
abbrev clock_world : State
clock_world = record new_world {
  program = record new_world.program { frames = λ f. fresh (clock 2 "clock 1") };
}

clock-ticks_example :
    (v : State) × (run_until selection resume_code 6
        (pos 0 +ℤ pos 0 +ℤ pos 7)
        (start 0 (pos 0) clock_world)
      ≡ finished v)
    × (v.program.shared.out ≡ tick_lines 2 "clock 1" (pos 0) 4)
    × (v.now ≡ pos 0 +ℤ pos 0 +ℤ pos 7)
unfolding ◌+ℤ◌
clock-ticks_example =
    clock-ticks 2 "clock 1" selection 6 3 1 0 (pos 0) clock_world refl refl (omega arith)
      (omega arith) (omega arith) (omega arith)
