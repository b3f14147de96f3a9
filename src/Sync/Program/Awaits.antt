-- ===== src/Sync/Program/Awaits.antt =====
-- include/cxxdes/sync/event.hpp: `wait_awaitable` and `wake_awaitable` beside other awaitables.
use libcxxdes.Base.{ℕ, Bool, true, false, Option, none}
use libcxxdes.Base.Int.{ℤ}
use libcxxdes.Core.World.{World, Outcome, done}
use libcxxdes.Core.Process.{Program, Await, Result, returned, Value, nothing, map_first}
use libcxxdes.Sync.Event
use libcxxdes.Sync.Event.{Wait}
use libcxxdes.Sync.Program.Store.{Shared, EventAt, event_of, set_event, set_objects}

-- `evt.wait(latency, priority)` and `evt.wake()`
pub data EventCall : Type 0 where
  waits : EventAt → Wait → EventCall
  wakes : EventAt → EventCall

pub data WithEvents (A : Type 0) : Type 0 where
  plain : A → WithEvents A
  on_event : EventCall → WithEvents A

unfoldable pub event_bind : EventCall → ℤ → EventCall
event_bind (waits e a) priority = waits e (Event.await_bind a priority)
event_bind (wakes e) priority = wakes e

unfoldable pub event_token : EventCall → Option ℕ
event_token (waits e a) = a.tkn
event_token (wakes e) = none

module _ {C V X : Type 0} where
  unfoldable pub event_ready :
      EventCall → World (Program C V (Shared X)) → Bool × EventCall × World (Program C V (Shared X))
  unfolding event_of set_event set_objects
  event_ready (waits e a) w = (false, waits e a, w)
  event_ready (wakes e) w =
      let o = w.program.shared.objects in
      let (evt, v) = Event.wake (event_of e o) w in
      (true, wakes e, set_objects (set_event e evt o) v)

  unfoldable pub event_suspend :
      EventCall
      → Option ℕ
      → World (Program C V (Shared X))
      → EventCall × World (Program C V (Shared X))
  unfolding event_of set_event set_objects
  event_suspend (waits e a) caller w =
      let o = w.program.shared.objects in
      let (evt, b, v) = Event.await_suspend (event_of e o) a caller w in
      (waits e b, set_objects (set_event e evt o) v)
  event_suspend (wakes e) caller w = (wakes e, w)

module _ {C V X A : Type 0} (aw : Await (Program C V (Shared X)) A Value) where
  open aw use {ops, resume_value}
  open ops use {child_bind, child_ready, child_suspend, child_token, child_resume}

  unfoldable pub with_events_bind :
      WithEvents A
      → ℤ
      → World (Program C V (Shared X))
      → Outcome (WithEvents A × World (Program C V (Shared X)))
  unfolding map_first event_bind
  with_events_bind (plain a) p w = map_first plain (child_bind a p w)
  with_events_bind (on_event e) p w = done (on_event (event_bind e p), w)

  unfoldable pub with_events_ready :
      WithEvents A
      → World (Program C V (Shared X))
      → Bool × WithEvents A × World (Program C V (Shared X))
  unfolding event_ready
  with_events_ready (plain a) w = let (r, b, v) = child_ready a w in (r, plain b, v)
  with_events_ready (on_event e) w = let (r, b, v) = event_ready e w in (r, on_event b, v)

  unfoldable pub with_events_suspend :
      WithEvents A
      → Option ℕ
      → World (Program C V (Shared X))
      → Outcome (WithEvents A × World (Program C V (Shared X)))
  unfolding map_first event_suspend
  with_events_suspend (plain a) caller w = map_first plain (child_suspend a caller w)
  with_events_suspend (on_event e) caller w =
      let (b, v) = event_suspend e caller w in done (on_event b, v)

  unfoldable pub with_events_token : WithEvents A → Option ℕ
  unfolding event_token
  with_events_token (plain a) = child_token a
  with_events_token (on_event e) = event_token e

  unfoldable pub with_events_resume :
      WithEvents A
      → World (Program C V (Shared X))
      → Outcome (WithEvents A × World (Program C V (Shared X)))
  unfolding map_first
  with_events_resume (plain a) w = map_first plain (child_resume a w)
  with_events_resume (on_event e) w = done (on_event e, w)

  unfoldable pub with_events_value :
      WithEvents A → World (Program C V (Shared X)) → Result Value × World (Program C V (Shared X))
  with_events_value (plain a) w = resume_value a w
  with_events_value (on_event e) w = (returned nothing, w)

  unfoldable pub with_events : Await (Program C V (Shared X)) (WithEvents A) Value
  unfolding with_events_bind with_events_ready with_events_suspend with_events_token
      with_events_resume with_events_value
  with_events = record {
    ops = record {
      child_bind = with_events_bind;
      child_ready = with_events_ready;
      child_suspend = with_events_suspend;
      child_token = with_events_token;
      child_resume = with_events_resume;
    };
    resume_value = with_events_value;
  }
