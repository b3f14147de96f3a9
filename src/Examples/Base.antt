-- ===== src/Examples/Base.antt =====
-- What the examples share: a world to start in, and the words they are written in.
use Prim.Native.String.{String}
use libcxxdes.Base.{ℕ, Bool, true, false, Option, none, some, List, [], ◌∷◌, ◌++◌}
use libcxxdes.Base.Int.{ℤ, pos, ◌+ℤ◌}
use libcxxdes.Misc.Time.{one_second}
use libcxxdes.Core.Token.{Exception, inherit, token_comp, has_priority}
use libcxxdes.Core.World.{World, done, threw, Condition}
use libcxxdes.Core.Coroutine
use libcxxdes.Core.Composition
use libcxxdes.Core.Timeout
use libcxxdes.Core.Coroutine.{
  set_priority, Coroutine, new_coroutine, do_return, return_value, unhandled_exception,
  await_resume_tag, async_bind,
}
use libcxxdes.Core.Composition.{AnyAll, invoke}
use libcxxdes.Core.Timeout.{ticks, timeout, lazy_timeout, lazy_bind, lazy_resume}
use libcxxdes.Core.Environment.{finished, aborted, out_of_fuel, run, step, run_for, run_until, due}
use libcxxdes.Core.Queue.Selection.{selection}
use libcxxdes.Core.Simulation
use libcxxdes.Core.Simulation.{Simulation, Simulated, ended, unfinished, simulate, simulate_for}
use libcxxdes.Core.Process.{
  Body, co_await, act, call, returned, raised, Program, gone, create, resume_frame, Value, number,
  Leaf, sleep, join_void, join, launch, leaf_await, Layer, single, layer_await, await_then,
  new_coroutine_data,
}

-- A line that a program prints: its text, the time at which it is printed, and a value or an
-- exception where it shows one.
pub data Line : Type 0 where
  line : String → ℤ → Line
  line_of : String → ℤ → ℕ → Line
  line_caught : String → ℤ → Exception → Line
  line_signed : String → ℤ → ℤ → Line

-- What the programs write to: their output, and the members `counter` and `completed`.
pub record Variables : Type 0 where
  pub out : List Line
  pub counter : ℕ
  pub completed : Bool

abbrev pub Awaiter : Type 0
Awaiter = Layer (Layer Leaf)

abbrev pub Code : Type 0
Code = Body Awaiter Value Variables

abbrev pub State : Type 0
State = World (Program Awaiter Value Variables)

-- `fmt::print("…")`, with a value, and with the text of an exception.
abbrev pub write : (ℤ → Line) → Code → Code
write l b = act (λ t g. record g { out = g.out ++ l t ∷ [] }) b

abbrev pub print : String → Code → Code
print s b = write (λ t. line s t) b

abbrev pub print_value : String → ℕ → Code → Code
print_value s x b = write (λ t. line_of s t x) b

abbrev pub print_caught : String → Exception → Code → Code
print_caught s e b = write (λ t. line_caught s t e) b

abbrev pub leaf : Leaf → Awaiter
leaf a = single (single a)

-- `timeout(t)` and `delay(t)`
abbrev pub delay : ℕ → Leaf
delay d = sleep (timeout (ticks (pos d)) inherit)

-- `co_await a;`
abbrev pub await_only : Awaiter → Code → Code
await_only a b = await_then a (λ v. b)

-- `co_await a` where `a` yields a number.
abbrev pub await_number : Awaiter → (ℕ → Code) → Code
await_number a f = await_then a (λ v. elim v [ number x ↦ f x | other ↦ f 0 ])

-- `try { co_await a; } catch (std::exception &ex) { fmt::println("…", ex.what()); }`
abbrev pub try_await : Awaiter → String → Code → Code
try_await a s b = co_await a (λ r. elim r [ returned v ↦ b | raised e ↦ print_caught s e b ])

-- `co_await f()` of a coroutine function with the body `f`, without a value and with one.
abbrev pub await_call : Code → Code → Code
await_call f b = call f (λ c. await_only (leaf (join_void (new_coroutine c))) b)

abbrev pub await_result : Code → (ℕ → Code) → Code
await_result f b = call f (λ c. await_number (leaf (join (new_coroutine c))) b)

-- `co_await async(p)`
abbrev pub start_async : ℕ → Code → Code
start_async c b = await_only (leaf (launch (new_coroutine c))) b

-- A new environment, and the program's variables.
abbrev pub world_for : {C G : Type 0} → G → World (Program C Value G)
world_for g = record {
  id = 0;
  now = pos 0;
  used = false;
  unit = one_second;
  prec = one_second;
  queue = [];
  coroutines = [];
  current = none;
  token =
      λ i. record { time = pos 0; priority = pos 0; coro_data = none; handler = none; eptr = none };
  token_count = 0;
  handler =
      λ h. record { condition = Condition.all_of; total = 0; remaining = 0; completion_tkn = none };
  handler_count = 0;
  coroutine = λ c. new_coroutine_data false;
  program = record {
    frames = λ f. gone;
    next_frame = 0;
    shared = g;
    crashed = false;
    rounds = 4;
    stuck = false;
  };
}

abbrev pub no_output : Variables
no_output = record { out = []; counter = 0; completed = false }

abbrev pub new_world : State
new_world = world_for no_output

abbrev pub new_simulation : Simulation (Program Awaiter Value Variables)
new_simulation = record { env = new_world; bound = false }

-- `co_main()`
abbrev pub co_main_of : Code → State → Coroutine × State
co_main_of b w = (new_coroutine w.program.next_frame, create false b w)

abbrev pub resume_code : ℕ → State → State
resume_code = resume_frame (layer_await (layer_await leaf_await))

unfoldable pub run_code : Code → ℕ → Simulated (Program Awaiter Value Variables)
unfolding simulate simulate_for Coroutine.bind_to create run step selection resume_frame layer_await
    leaf_await Timeout.await_ready Timeout.await_bind Timeout.await_suspend Timeout.resume_time
    lazy_bind lazy_resume do_return return_value unhandled_exception await_resume_tag ◌+ℤ◌
    await_then token_comp has_priority timeout lazy_timeout invoke run_for run_until due
    Coroutine.await_bind Coroutine.await_ready Coroutine.await_suspend Coroutine.await_resume
    async_bind Composition.await_bind Composition.await_ready Composition.await_suspend
    Composition.await_resume
run_code b fuel = simulate (co_main_of b) selection resume_code fuel new_simulation

unfoldable pub run_code_on :
    Code
    → ℤ
    → ℕ
    → Simulation (Program Awaiter Value Variables)
    → Simulated (Program Awaiter Value Variables)
unfolding simulate simulate_for Coroutine.bind_to create run step selection resume_frame layer_await
    leaf_await Timeout.await_ready Timeout.await_bind Timeout.await_suspend Timeout.resume_time
    lazy_bind lazy_resume do_return return_value unhandled_exception await_resume_tag ◌+ℤ◌
    await_then token_comp has_priority timeout lazy_timeout invoke run_for run_until due
    Coroutine.await_bind Coroutine.await_ready Coroutine.await_suspend Coroutine.await_resume
    async_bind Composition.await_bind Composition.await_ready Composition.await_suspend
    Composition.await_resume
run_code_on b t fuel s = simulate_for (co_main_of b) selection resume_code fuel t s

unfoldable pub run_code_for : Code → ℤ → ℕ → Simulated (Program Awaiter Value Variables)
unfolding run_code_on
run_code_for b t fuel = run_code_on b t fuel new_simulation

-- `env.bind(f().priority(p))` in a plain environment; nothing throws for a new coroutine.
unfoldable pub bound : Code → ℤ → State → State
unfolding create Coroutine.bind_to set_priority
bound b p w =
    let c = new_coroutine w.program.next_frame in
    elim (Coroutine.bind_to c (set_priority p c (create false b w))) [
      | done (h, v) ↦ v
      | threw e (h, v) ↦ v
    ]

-- `env.run()`, and what is printed by then.
unfoldable pub run_bound : ℕ → State → Option (List Line)
unfolding run_code
run_bound fuel w = elim (run selection resume_code fuel w) [
  | finished v ↦ some v.program.shared.out
  | aborted e v ↦ none
  | out_of_fuel ↦ none
]

-- What is printed, where `run` throws or ends, and whether it throws.
abbrev pub printed : Simulated (Program Awaiter Value Variables) → Option (Bool × List Line)
printed (ended s) = some (false, s.env.program.shared.out)
printed (Simulation.raised e s) = some (true, s.env.program.shared.out)
printed unfinished = none

-- `try { env.run(); } catch (std::exception &ex) { fmt::println("…", ex.what()); }`
abbrev pub reported : String → Simulated (Program Awaiter Value Variables) → Option (List Line)
reported s (ended t) = some t.env.program.shared.out
reported s (Simulation.raised e t) =
    some (t.env.program.shared.out ++ line_caught s t.env.now e ∷ [])
reported s unfinished = none
