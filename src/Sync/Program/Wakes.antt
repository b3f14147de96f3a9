-- ===== src/Sync/Program/Wakes.antt =====
-- A wake behind a write to the object that holds the event.
use libcxxdes.Base.{ℕ, ◌≡◌, refl, ap, ◌∙◌, List, [], ◌∷◌}
use libcxxdes.Core.World.{World}
use libcxxdes.Core.Schedule.{schedule_all, schedule_from_now}
use libcxxdes.Core.Process.{Program}
use libcxxdes.Sync.Event.{wake}
use libcxxdes.Sync.Mutex.{Mutex}
use libcxxdes.Sync.Semaphore.{Semaphore}
use libcxxdes.Sync.Queue.{Queue}
use libcxxdes.Sync.Program.Store.{
  Objects, Shared, SemaphoreAt, EventAt, mutex_at, queue_at, set_mutex, semaphore_event, event_of,
  set_event, set_semaphore, set_queue, set_objects,
}
use libcxxdes.Sync.Program.Sets.{
  semaphore_of-set_semaphore, set_semaphore-set_semaphore, mutexes-set_mutex, set_mutex-set_mutex,
  queues-set_queue, set_queue-set_queue,
}

module _ {C V X : Type 0} where
  -- The tokens are scheduled whatever the objects are.
  schedule_all-set_objects :
      (ts : List ℕ) (o : Objects) (w : World (Program C V (Shared X)))
      → schedule_all ts (set_objects o w) ≡ set_objects o (schedule_all ts w)
  unfolding schedule_all schedule_from_now set_objects
  schedule_all-set_objects [] o w = refl
  schedule_all-set_objects (t ∷ ts) o w = schedule_all-set_objects ts o (schedule_from_now t w)

  -- What `co_await event_.wake()` comes to.
  abbrev pub wake_at : EventAt → World (Program C V (Shared X)) → World (Program C V (Shared X))
  wake_at e w =
      let (evt, v) = wake (event_of e w.program.shared.objects) w in
      set_objects (set_event e evt w.program.shared.objects) v

  pub wake_at-set_semaphore :
      (s : SemaphoreAt) (x : Semaphore) (o : Objects) (w : World (Program C V (Shared X)))
      → wake_at (semaphore_event s) (set_objects (set_semaphore s x o) w) ≡ (
          let (evt, v) = wake x.event w in
          set_objects (set_semaphore s (record x { event = evt }) o) v)
  unfolding wake event_of set_event set_objects
  wake_at-set_semaphore s x o w =
      ap
        (λ y.
          set_objects
            (set_semaphore s (record y { event = record { tokens = [] } }) (set_semaphore s x o))
            (schedule_all y.event.tokens (set_objects (set_semaphore s x o) w)))
        (semaphore_of-set_semaphore s x o)
      ∙ ap (λ q. set_objects q (schedule_all x.event.tokens (set_objects (set_semaphore s x o) w)))
          (set_semaphore-set_semaphore s x (record x { event = record { tokens = [] } }) o)
      ∙ ap (set_objects (set_semaphore s (record x { event = record { tokens = [] } }) o))
          (schedule_all-set_objects x.event.tokens (set_semaphore s x o) w)

  pub wake_at-set_queue :
      (q : ℕ) (x : Queue ℕ) (o : Objects) (w : World (Program C V (Shared X)))
      → wake_at (queue_at q) (set_objects (set_queue q x o) w) ≡ (
          let (evt, v) = wake x.event w in set_objects (set_queue q (record x { event = evt }) o) v)
  unfolding wake event_of set_event set_objects
  wake_at-set_queue q x o w =
      ap
        (λ y.
          set_objects (set_queue q (record y { event = record { tokens = [] } }) (set_queue q x o))
            (schedule_all y.event.tokens (set_objects (set_queue q x o) w)))
        (queues-set_queue q x o)
      ∙ ap (λ z. set_objects z (schedule_all x.event.tokens (set_objects (set_queue q x o) w)))
          (set_queue-set_queue q x (record x { event = record { tokens = [] } }) o)
      ∙ ap (set_objects (set_queue q (record x { event = record { tokens = [] } }) o))
          (schedule_all-set_objects x.event.tokens (set_queue q x o) w)

  pub wake_at-set_mutex :
      (m : ℕ) (x : Mutex) (o : Objects) (w : World (Program C V (Shared X)))
      → wake_at (mutex_at m) (set_objects (set_mutex m x o) w) ≡ (
          let (evt, v) = wake x.event w in set_objects (set_mutex m (record x { event = evt }) o) v)
  unfolding wake event_of set_event set_objects
  wake_at-set_mutex m x o w =
      ap
        (λ y.
          set_objects (set_mutex m (record y { event = record { tokens = [] } }) (set_mutex m x o))
            (schedule_all y.event.tokens (set_objects (set_mutex m x o) w)))
        (mutexes-set_mutex m x o)
      ∙ ap (λ z. set_objects z (schedule_all x.event.tokens (set_objects (set_mutex m x o) w)))
          (set_mutex-set_mutex m x (record x { event = record { tokens = [] } }) o)
      ∙ ap (set_objects (set_mutex m (record x { event = record { tokens = [] } }) o))
          (schedule_all-set_objects x.event.tokens (set_mutex m x o) w)
