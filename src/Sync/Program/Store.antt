-- ===== src/Sync/Program/Store.antt =====
-- The synchronization objects of a program, by their addresses.
use libcxxdes.Base.{ℕ, update}
use libcxxdes.Core.World.{World}
use libcxxdes.Core.Process.{Program}
use libcxxdes.Sync.Event.{Event}
use libcxxdes.Sync.Mutex.{Mutex}
use libcxxdes.Sync.Semaphore.{Semaphore}
use libcxxdes.Sync.Queue.{Queue}
use libcxxdes.Sync.Resource.{Resource}

pub record Objects : Type 0 where
  pub events : ℕ → Event
  pub mutexes : ℕ → Mutex
  pub semaphores : ℕ → Semaphore
  pub resources : ℕ → Resource
  pub queues : ℕ → Queue ℕ

-- A semaphore on its own, or the one in a resource.
pub data SemaphoreAt : Type 0 where
  semaphore_at resource_at : ℕ → SemaphoreAt

-- An event on its own, or the one in another object.
pub data EventAt : Type 0 where
  event_at mutex_at queue_at : ℕ → EventAt
  semaphore_event : SemaphoreAt → EventAt

unfoldable pub semaphore_of : SemaphoreAt → Objects → Semaphore
semaphore_of (semaphore_at i) o = o.semaphores i
semaphore_of (resource_at i) o = (o.resources i).sem

unfoldable pub set_semaphore : SemaphoreAt → Semaphore → Objects → Objects
set_semaphore (semaphore_at i) s o = record o { semaphores = update o.semaphores i s }
set_semaphore (resource_at i) s o = record o {
  resources = update o.resources i (record { sem = s });
}

unfoldable pub set_mutex : ℕ → Mutex → Objects → Objects
set_mutex i m o = record o { mutexes = update o.mutexes i m }

unfoldable pub set_queue : ℕ → Queue ℕ → Objects → Objects
set_queue i q o = record o { queues = update o.queues i q }

unfoldable pub event_of : EventAt → Objects → Event
unfolding semaphore_of
event_of (event_at i) o = o.events i
event_of (mutex_at i) o = (o.mutexes i).event
event_of (queue_at i) o = (o.queues i).event
event_of (semaphore_event s) o = (semaphore_of s o).event

unfoldable pub set_event : EventAt → Event → Objects → Objects
unfolding semaphore_of set_semaphore set_mutex set_queue
set_event (event_at i) e o = record o { events = update o.events i e }
set_event (mutex_at i) e o = set_mutex i (record (o.mutexes i) { event = e }) o
set_event (queue_at i) e o = set_queue i (record (o.queues i) { event = e }) o
set_event (semaphore_event s) e o = set_semaphore s (record (semaphore_of s o) { event = e }) o

-- What the coroutines of a program share: the objects, and its variables.
pub record Shared (X : Type 0) : Type 0 where
  pub objects : Objects
  pub vars : X

module _ {C V X : Type 0} where
  unfoldable pub set_objects :
      Objects → World (Program C V (Shared X)) → World (Program C V (Shared X))
  set_objects o w = record w {
    program = record w.program { shared = record w.program.shared { objects = o } };
  }
