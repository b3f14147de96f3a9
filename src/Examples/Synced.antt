-- ===== src/Examples/Synced.antt =====
-- What the examples with synchronization objects share.
use Prim.Native.String.{String}
use libcxxdes.Base.{ℕ, false, Option, none, some, List, [], ◌∷◌, ◌++◌}
use libcxxdes.Base.Int.{◌+ℤ◌}
use libcxxdes.Core.Token.{token_comp, has_priority}
use libcxxdes.Core.World.{World}
use libcxxdes.Core.Schedule.{schedule_all}
use libcxxdes.Core.Coroutine
use libcxxdes.Core.Composition
use libcxxdes.Core.Timeout
use libcxxdes.Core.Timeout.{timeout}
use libcxxdes.Core.Coroutine.{
  Coroutine, new_coroutine, do_return, return_value, unhandled_exception, await_resume_tag,
  async_bind,
}
use libcxxdes.Core.Composition.{invoke}
use libcxxdes.Core.Environment.{step, run}
use libcxxdes.Core.Queue.Selection.{selection}
use libcxxdes.Core.Simulation.{Simulated, ended, simulate}
use libcxxdes.Core.Process.{
  Body, act, Program, create, resume_frame, Value, leaf_await, layer_await, await_then, inline,
  inline_then,
}
use libcxxdes.Sync.Event
use libcxxdes.Sync.Event.{new_event}
use libcxxdes.Sync.Mutex.{new_mutex}
use libcxxdes.Sync.Semaphore.{new_semaphore}
use libcxxdes.Sync.Resource.{new_resource}
use libcxxdes.Sync.Queue.{new_queue}
use libcxxdes.Sync.Program.{
  Objects, Shared, EventCall, WithEvents, plain, on_event, with_events, event_of, set_event,
  set_objects,
}
use libcxxdes.Examples.Base.{Line, line, line_of, Variables, Awaiter, no_output, world_for}

abbrev pub SyncAwaiter : Type 0
SyncAwaiter = WithEvents Awaiter

abbrev pub SyncCode : Type 0
SyncCode = Body SyncAwaiter Value (Shared Variables)

abbrev pub SyncState : Type 0
SyncState = World (Program SyncAwaiter Value (Shared Variables))

abbrev pub call_event : EventCall → SyncAwaiter
call_event e = on_event e

abbrev pub sync_print : String → SyncCode → SyncCode
sync_print s b =
    act (λ t g. record g { vars = record g.vars { out = g.vars.out ++ line s t ∷ [] } }) b

abbrev pub sync_print_value : String → ℕ → SyncCode → SyncCode
sync_print_value s x b =
    act (λ t g. record g { vars = record g.vars { out = g.vars.out ++ line_of s t x ∷ [] } }) b

-- `co_await a;` and `co_await s;` of a subroutine
abbrev pub sync_await : Awaiter → SyncCode → SyncCode
sync_await a b = await_then (plain a) (λ v. b)

abbrev pub sync_call : SyncCode → SyncCode → SyncCode
sync_call s b = inline_then s (λ r. b)

abbrev pub sync_result : SyncCode → (Option ℕ → SyncCode) → SyncCode
sync_result s f = inline_then s f

-- Objects as their constructors make them without an argument.
abbrev pub no_objects : Objects
no_objects = record {
  events = λ i. new_event;
  mutexes = λ i. new_mutex;
  semaphores = λ i. new_semaphore 0 0;
  resources = λ i. new_resource 0;
  queues = λ i. new_queue 0;
}

abbrev pub sync_world : Objects → SyncState
sync_world o = world_for (record { objects = o; vars = no_output })

unfoldable pub run_synced :
    SyncCode → ℕ → Objects → Simulated (Program SyncAwaiter Value (Shared Variables))
unfolding simulate Coroutine.bind_to create run step selection resume_frame layer_await with_events
    leaf_await Timeout.await_ready Timeout.await_bind Timeout.await_suspend Timeout.resume_time
    do_return return_value unhandled_exception await_resume_tag ◌+ℤ◌ new_semaphore new_resource
    new_queue await_then inline inline_then token_comp has_priority timeout invoke event_of
    set_event set_objects Event.await_suspend Event.await_bind Event.wake Event.wait schedule_all
    Coroutine.await_bind Coroutine.await_ready Coroutine.await_suspend Coroutine.await_resume
    async_bind Composition.await_bind Composition.await_ready Composition.await_suspend
    Composition.await_resume
run_synced b fuel o =
    simulate (λ w. (new_coroutine w.program.next_frame, create false b w)) selection
      (resume_frame (with_events (layer_await (layer_await leaf_await)))) fuel
      (record { env = sync_world o; bound = false })

-- What is printed by the end.
abbrev pub sync_printed :
    Simulated (Program SyncAwaiter Value (Shared Variables)) → Option (List Line)
sync_printed (ended s) = some s.env.program.shared.vars.out
sync_printed other = none
