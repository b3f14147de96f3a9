-- ===== src/Examples/Mixed.antt =====
-- src/examples/complicated.cpp, and Async2 of src/tests/controlflow.test.cpp: coroutines that
-- await events beside other awaitables, and in compositions.
use Prim.Native.String.{String}
use libcxxdes.Base.{ℕ, zero, suc, false, Option, none, some, List, [], ◌∷◌, ◌++◌}
use libcxxdes.Base.Int.{ℤ, pos, ◌+ℤ◌, ◌-ℤ◌}
use libcxxdes.Core.Token.{inherit, token_comp, has_priority}
use libcxxdes.Core.World.{any_of, all_of}
use libcxxdes.Core.Schedule.{schedule_all}
use libcxxdes.Core.Queue.Selection.{selection}
use libcxxdes.Core.Timeout
use libcxxdes.Core.Timeout.{timeout}
use libcxxdes.Core.Composition
use libcxxdes.Core.Composition.{compose, invoke}
use libcxxdes.Core.Coroutine
use libcxxdes.Core.Coroutine.{
  Coroutine, new_coroutine, do_return, return_value, unhandled_exception, await_resume_tag,
  async_bind,
}
use libcxxdes.Core.Environment.{step, run}
use libcxxdes.Core.Simulation.{Simulated, ended, simulate}
use libcxxdes.Core.Process.{
  Body, act, look, Program, create, resume_frame, Value, handle, Leaf, join_void, launch, Layer,
  single, composed, leaf_await, layer_await, await_then, inline, co_return, call, sequential_body,
  either_of, both_of,
}
use libcxxdes.Sync.Event
use libcxxdes.Sync.Event.{wait}
use libcxxdes.Sync.Program.{
  Shared, waits, wakes, event_at, plain, on_event, with_events, event_of, set_event, set_objects,
}
use libcxxdes.Sync.Program.Clock.{synced_await}
use libcxxdes.Examples.Base.{
  Variables, Line, line, line_of, line_signed, leaf, delay, world_for, no_output,
}
use libcxxdes.Examples.Synced.{SyncAwaiter, no_objects}

abbrev pub MixedCode : Type 0
MixedCode = Body (Layer SyncAwaiter) Value (Shared Variables)

abbrev one : Leaf → Layer SyncAwaiter
one a = single (plain (leaf a))

abbrev waiting_for_event : SyncAwaiter
waiting_for_event = on_event (waits (event_at 0) (wait (pos 0) inherit))

abbrev mixed_print : String → MixedCode → MixedCode
mixed_print s b =
    act (λ t g. record g { vars = record g.vars { out = g.vars.out ++ line s t ∷ [] } }) b

abbrev mixed_print_value : String → ℕ → MixedCode → MixedCode
mixed_print_value s x b =
    act (λ t g. record g { vars = record g.vars { out = g.vars.out ++ line_of s t x ∷ [] } }) b

abbrev mixed_await : Layer SyncAwaiter → MixedCode → MixedCode
mixed_await a b = await_then a (λ v. b)

abbrev mixed_call : MixedCode → MixedCode → MixedCode
mixed_call f b = call f (λ c. mixed_await (one (join_void (new_coroutine c))) b)

abbrev child : ℕ → SyncAwaiter
child c = plain (leaf (join_void (new_coroutine c)))

abbrev wake_event : MixedCode → MixedCode
wake_event b = mixed_await (single (on_event (wakes (event_at 0)))) b

-- Async2
unfoldable pub bar2 : MixedCode
bar2 = mixed_await (one (delay 50)) (wake_event (co_return none))

unfoldable pub foo2 : MixedCode
unfolding bar2
foo2 =
    call bar2
      (λ c. mixed_await (one (launch (new_coroutine c))) (mixed_print "now" (co_return none)))

abbrev await_started : Value → MixedCode → MixedCode
await_started v b = elim v [ handle p ↦ mixed_await (one (join_void p)) b | other ↦ b ]

unfoldable pub async2_main : MixedCode
unfolding foo2
async2_main = call foo2 (λ x. await_then (one (launch (new_coroutine x))) (λ y. mixed_print "now" (
    mixed_await (one (delay 5)) (
      mixed_print "now" (
        await_started y (
          mixed_print "now"
            (mixed_await (single waiting_for_event) (mixed_print "now" (co_return none)))))))))

-- complicated.cpp
unfoldable pub p0 : MixedCode
p0 = mixed_await (one (delay 5)) (co_return none)

unfoldable pub p1 : MixedCode
p1 = mixed_await (one (delay 5)) (wake_event (co_return none))

unfoldable pub p2 : MixedCode
unfolding p0 either_of sequential_body
p2 = mixed_print "p2.a" (
    mixed_await (composed (either_of waiting_for_event (plain (leaf (delay 8))))) (
      mixed_print "p2.b" (
        mixed_call p0 (
          mixed_print "p2.c" (
            mixed_call (sequential_body (one (delay 5) ∷ one (delay 5) ∷ []))
              (mixed_print "p2.d" (co_return none)))))))

unfoldable pub p3 : MixedCode
unfolding p0 sequential_body
p3 = call p0 (λ c.
    mixed_call
      (sequential_body (one (delay 5) ∷ one (delay 10) ∷ one (join_void (new_coroutine c)) ∷ []))
      (mixed_print "p3.a" (co_return none)))

unfoldable pub p4 : ℕ → MixedCode
p4 zero = co_return none
p4 (suc k) =
    mixed_await (one (delay 5))
      (mixed_print_value "p4.a" (suc k) (mixed_call (p4 k) (co_return none)))

abbrev to_wait : List SyncAwaiter
to_wait = plain (leaf (delay 5)) ∷ plain (leaf (delay 10)) ∷ plain (leaf (delay 20)) ∷ []

-- The time that has passed since `t`.
abbrev print_delta : ℤ → MixedCode → MixedCode
print_delta t b =
    act
      (λ u g. record g {
        vars = record g.vars { out = g.vars.out ++ line_signed "p5.delta1" u (u -ℤ t) ∷ [] };
      })
      b

unfoldable pub p5 : MixedCode
p5 = mixed_print "Example 5: dynamic versions" (
    look (λ t g. mixed_await (composed (compose all_of to_wait)) (
      print_delta t (
        look (λ u g'.
          mixed_await (composed (compose any_of to_wait)) (print_delta u (co_return none)))))))

-- `((p1() && p2()), p3(), p4(20))`, and what follows.
unfoldable pub expressions : MixedCode
unfolding p1 p2 p3 p4 p5 both_of sequential_body
expressions = call p1 (λ a. call p2 (λ b. call p3 (λ c.
    call
      (sequential_body
        (composed (both_of (child a) (child b)) ∷ one (join_void (new_coroutine c)) ∷ []))
      (λ d. call (p4 20) (λ e.
        mixed_call
          (sequential_body
            (one (join_void (new_coroutine d)) ∷ one (join_void (new_coroutine e)) ∷ []))
          (mixed_print "Example 5: dynamic" (mixed_call p5 (co_return none))))))))

unfoldable pub complicated_main : MixedCode
unfolding p1 p2 p3 p4 expressions
complicated_main = mixed_print "Example 1" (
    call p1 (λ a. call p2 (λ b. mixed_await (composed (compose all_of (child a ∷ child b ∷ []))) (
      mixed_print "Example 2" (
        mixed_call p3
          (mixed_print "Example 3" (mixed_call (p4 20) (mixed_print "Example 4" expressions))))))))

unfoldable pub run_mixed :
    MixedCode → ℕ → Simulated (Program (Layer SyncAwaiter) Value (Shared Variables))
unfolding simulate Coroutine.bind_to create run step selection resume_frame layer_await with_events
    leaf_await Timeout.await_ready Timeout.await_bind Timeout.await_suspend Timeout.resume_time
    do_return return_value unhandled_exception await_resume_tag ◌+ℤ◌ ◌-ℤ◌ await_then inline
    token_comp has_priority timeout invoke event_of set_event set_objects Event.await_suspend
    Event.await_bind Event.wake Event.wait schedule_all Coroutine.await_bind Coroutine.await_ready
    Coroutine.await_suspend Coroutine.await_resume async_bind Composition.await_bind
    Composition.await_ready Composition.await_suspend Composition.await_resume
run_mixed b fuel =
    simulate (λ w. (new_coroutine w.program.next_frame, create false b w)) selection
      (resume_frame synced_await) fuel
      (record {
        env = world_for (record { objects = no_objects; vars = no_output });
        bound = false;
      })

abbrev pub mixed_printed :
    Simulated (Program (Layer SyncAwaiter) Value (Shared Variables)) → Option (List Line)
mixed_printed (ended s) = some s.env.program.shared.vars.out
mixed_printed other = none
