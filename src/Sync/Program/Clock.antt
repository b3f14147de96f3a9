-- ===== src/Sync/Program/Clock.antt =====
-- include/cxxdes/sync/event.hpp: waits and wakes among the awaitables of a program, and `now_`.
use libcxxdes.Base.{ℕ, ◌≡◌, refl, Option}
use libcxxdes.Base.Int.{ℤ, ◌≤ℤ◌}
use libcxxdes.Core.World.{World}
use libcxxdes.Core.Queue.{PriorityQueue}
use libcxxdes.Core.Environment.{step}
use libcxxdes.Core.Environment.Clock.{after, step-now-mono}
use libcxxdes.Core.Schedule.{schedule_all-SameObjects}
use libcxxdes.Core.Process.{
  Program, Await, Value, Leaf, leaf_await, Layer, layer_await, resume_frame,
}
use libcxxdes.Core.Process.Clock.{
  world_in, AwaitKeepsNow, map_first-world, leaf-KeepsNow, layer-KeepsNow, resume_frame-now,
}
use libcxxdes.Sync.Event.{wake, await_suspend}
use libcxxdes.Sync.Program.Store.{Shared, event_of, set_objects}
use libcxxdes.Sync.Program.Awaits.{
  EventCall, waits, wakes, WithEvents, plain, on_event, event_ready, event_suspend, with_events,
  with_events_bind, with_events_ready, with_events_suspend, with_events_resume, with_events_value,
}

module _ {C V X : Type 0} where
  event_ready-now :
      (e : EventCall) (w : World (Program C V (Shared X))) → (event_ready e w).2.now ≡ w.now
  unfolding event_ready set_objects wake
  event_ready-now (waits e a) w = refl
  event_ready-now (wakes e) w =
      (schedule_all-SameObjects (event_of e w.program.shared.objects).tokens w).same_now

  event_suspend-now :
      (e : EventCall) (caller : Option ℕ) (w : World (Program C V (Shared X)))
      → (event_suspend e caller w).1.now ≡ w.now
  unfolding event_suspend set_objects await_suspend
  event_suspend-now (waits e a) caller w = refl
  event_suspend-now (wakes e) caller w = refl

module _ {C V X A : Type 0} (aw : Await (Program C V (Shared X)) A Value)
    (keeps : AwaitKeepsNow aw) where
  open keeps use {ops_now, value_now}
  open ops_now use {bind_now, ready_now, suspend_now, resume_now}

  with_events_bind-now :
      (a : WithEvents A) (p : ℤ) (w : World (Program C V (Shared X)))
      → (world_in (with_events_bind aw a p w)).now ≡ w.now
  unfolding with_events_bind
  with_events_bind-now (plain a) p w = rw map_first-world (bind_now a p w)
  with_events_bind-now (on_event e) p w = refl

  with_events_ready-now :
      (a : WithEvents A) (w : World (Program C V (Shared X)))
      → (with_events_ready aw a w).2.now ≡ w.now
  unfolding with_events_ready
  with_events_ready-now (plain a) w = ready_now a w
  with_events_ready-now (on_event e) w = event_ready-now e w

  with_events_suspend-now :
      (a : WithEvents A) (caller : Option ℕ) (w : World (Program C V (Shared X)))
      → (world_in (with_events_suspend aw a caller w)).now ≡ w.now
  unfolding with_events_suspend
  with_events_suspend-now (plain a) caller w = rw map_first-world (suspend_now a caller w)
  with_events_suspend-now (on_event e) caller w = event_suspend-now e caller w

  with_events_resume-now :
      (a : WithEvents A) (w : World (Program C V (Shared X)))
      → (world_in (with_events_resume aw a w)).now ≡ w.now
  unfolding with_events_resume
  with_events_resume-now (plain a) w = rw map_first-world (resume_now a w)
  with_events_resume-now (on_event e) w = refl

  with_events_value-now :
      (a : WithEvents A) (w : World (Program C V (Shared X)))
      → (with_events_value aw a w).1.now ≡ w.now
  unfolding with_events_value
  with_events_value-now (plain a) w = value_now a w
  with_events_value-now (on_event e) w = refl

  with_events-KeepsNow : AwaitKeepsNow (with_events aw)
  unfolding with_events
  with_events-KeepsNow = record {
    ops_now = record {
      bind_now = with_events_bind-now;
      ready_now = with_events_ready-now;
      suspend_now = with_events_suspend-now;
      resume_now = with_events_resume-now;
    };
    value_now = with_events_value-now;
  }

abbrev pub synced_await :
    {X : Type 0}
    → Await
        (Program (Layer (WithEvents (Layer (Layer Leaf)))) Value (Shared X))
        (Layer (WithEvents (Layer (Layer Leaf))))
        Value
synced_await = layer_await (with_events (layer_await (layer_await leaf_await)))

-- For programs over the timeouts, coroutines and asynchronous starts of the library, two layers of
-- compositions of them, waits and wakes of events and the operations made of them, and
-- compositions of all these, a step never takes `now` back, whatever the bodies do and even if it
-- throws.
pub synced-mono :
    {X : Type 0} (q : PriorityQueue)
    (w : World (Program (Layer (WithEvents (Layer (Layer Leaf)))) Value (Shared X)))
    → w.now ≤ℤ (after (step q (resume_frame synced_await) w)).now
synced-mono q w =
    step-now-mono q (resume_frame synced_await)
      (resume_frame-now synced_await (
        layer-KeepsNow _
          (with_events-KeepsNow _ (layer-KeepsNow _ (layer-KeepsNow _ leaf-KeepsNow)))))
      w
