-- ===== src/Sync/Program/Operations.antt =====
-- The operations of include/cxxdes/sync that wait: their bodies, and their rounds, on the objects
-- of a program.
use libcxxdes.Base.{ℕ, update, Option, none, some}
use libcxxdes.Core.World.{World}
use libcxxdes.Core.Process.{Body}
use libcxxdes.Sync.Progress.{Progress}
use libcxxdes.Sync.Mutex
use libcxxdes.Sync.Semaphore
use libcxxdes.Sync.Queue
use libcxxdes.Sync.Resource
use libcxxdes.Sync.Program.Store.{
  Objects, Shared, SemaphoreAt, resource_at, EventAt, mutex_at, queue_at, semaphore_event,
  semaphore_of, set_semaphore, set_mutex, set_queue,
}
use libcxxdes.Sync.Program.Awaits.{EventCall}
use libcxxdes.Sync.Program.Bodies.{
  acquire_body, acquire_unit_body, up_body, down_body, put_body, pop_body,
}

pub data Operation : Type 0 where
  acquire acquire_unit : ℕ → Operation
  up down : SemaphoreAt → Operation
  put : ℕ → ℕ → Operation
  pop : ℕ → Operation

abbrev pub operation_body : {C V X : Type 0} → (EventCall → C) → Operation → Body C V (Shared X)
operation_body await (acquire m) = acquire_body await m
operation_body await (acquire_unit r) = acquire_unit_body await r
operation_body await (up s) = up_body await s
operation_body await (down s) = down_body await s
operation_body await (put q a) = put_body await q a
operation_body await (pop q) = pop_body await q

-- The event that the operation waits for.
abbrev pub event_for : Operation → EventAt
event_for (acquire m) = mutex_at m
event_for (acquire_unit r) = semaphore_event (resource_at r)
event_for (up s) = semaphore_event s
event_for (down s) = semaphore_event s
event_for (put q a) = queue_at q
event_for (pop q) = queue_at q

-- How a round ends, and what it returns and leaves.
pub record Round (S : Type 0) : Type 0 where
  pub progress : Progress
  pub value : Option ℕ
  pub left : Objects
  pub world : World S

module _ {S : Type 0} where
  abbrev pub of_acquire :
      ℕ → Objects → Progress × Option Mutex.Handle × Mutex.Mutex × World S → Round S
  of_acquire m o (p, h, x, v) = record {
    progress = p;
    value = elim h [ none ↦ none | some y ↦ y.x ];
    left = set_mutex m x o;
    world = v;
  }

  abbrev pub of_acquire_unit :
      ℕ → Objects → Progress × Option Resource.Handle × Resource.Resource × World S → Round S
  of_acquire_unit r o (p, h, x, v) = record {
    progress = p;
    value = elim h [ none ↦ none | some y ↦ y.x ];
    left = record o { resources = update o.resources r x };
    world = v;
  }

  abbrev pub of_semaphore :
      SemaphoreAt → Objects → Progress × Semaphore.Semaphore × World S → Round S
  of_semaphore s o (p, x, v) = record {
    progress = p;
    value = none;
    left = set_semaphore s x o;
    world = v;
  }

  abbrev pub of_put : ℕ → Objects → Progress × Queue.Queue ℕ × World S → Round S
  of_put q o (p, x, v) = record { progress = p; value = none; left = set_queue q x o; world = v }

  abbrev pub of_pop : ℕ → Objects → Progress × Option ℕ × Queue.Queue ℕ × World S → Round S
  of_pop q o (p, r, x, v) = record { progress = p; value = r; left = set_queue q x o; world = v }

  abbrev pub round : Operation → ℕ → Objects → World S → Round S
  round (acquire m) c o w = of_acquire m o (Mutex.acquire m c (o.mutexes m) w)
  round (acquire_unit r) c o w = of_acquire_unit r o (Resource.acquire r c (o.resources r) w)
  round (up s) c o w = of_semaphore s o (Semaphore.up c (semaphore_of s o) w)
  round (down s) c o w = of_semaphore s o (Semaphore.down c (semaphore_of s o) w)
  round (put q a) c o w = of_put q o (Queue.put c a (o.queues q) w)
  round (pop q) c o w = of_pop q o (Queue.pop c (o.queues q) w)
