-- ===== src/Sync/Program/Sets.antt =====
-- Writes to the synchronization objects of a program: a read behind a write, and a second write.
use mathlib.Core.Path.{fun_ext}
use libcxxdes.Base.{ℕ, ◌≡◌, refl, ap, Bool, true, false, ◌==◌, update, arith, if◌then◌else◌}
use libcxxdes.Sync.Mutex.{Mutex}
use libcxxdes.Sync.Semaphore.{Semaphore}
use libcxxdes.Sync.Queue.{Queue}
use libcxxdes.Sync.Program.Store.{
  Objects, SemaphoreAt, semaphore_at, resource_at, semaphore_of, set_semaphore, set_mutex,
  set_queue,
}

==_refl : (k : ℕ) → (k == k) ≡ true
==_refl k = ground arith

update-same : {A : Type 0} (f : ℕ → A) (k : ℕ) (v : A) → update f k v k ≡ v
update-same f k v = ap (λ b. if b then v else f k) (==_refl k)

update-update :
    {A : Type 0} (f : ℕ → A) (k : ℕ) (u v : A) → update (update f k u) k v ≡ update f k v
update-update {A = A} f k u v = fun_ext (λ j. by_test (f j) (k == j))
  where
    by_test : (x : A) (b : Bool) → (if b then v else (if b then u else x)) ≡ (if b then v else x)
    by_test x true = refl
    by_test x false = refl

pub semaphore_of-set_semaphore :
    (s : SemaphoreAt) (x : Semaphore) (o : Objects) → semaphore_of s (set_semaphore s x o) ≡ x
unfolding semaphore_of set_semaphore
semaphore_of-set_semaphore (semaphore_at i) x o = update-same o.semaphores i x
semaphore_of-set_semaphore (resource_at i) x o =
    ap (λ r. r.sem) (update-same o.resources i (record { sem = x }))

pub set_semaphore-set_semaphore :
    (s : SemaphoreAt) (x y : Semaphore) (o : Objects)
    → set_semaphore s y (set_semaphore s x o) ≡ set_semaphore s y o
unfolding set_semaphore
set_semaphore-set_semaphore (semaphore_at i) x y o =
    ap (λ f. record o { semaphores = f }) (update-update o.semaphores i x y)
set_semaphore-set_semaphore (resource_at i) x y o =
    ap (λ f. record o { resources = f })
      (update-update o.resources i (record { sem = x }) (record { sem = y }))

pub queues-set_queue : (q : ℕ) (x : Queue ℕ) (o : Objects) → (set_queue q x o).queues q ≡ x
unfolding set_queue
queues-set_queue q x o = update-same o.queues q x

pub set_queue-set_queue :
    (q : ℕ) (x y : Queue ℕ) (o : Objects) → set_queue q y (set_queue q x o) ≡ set_queue q y o
unfolding set_queue
set_queue-set_queue q x y o = ap (λ f. record o { queues = f }) (update-update o.queues q x y)

pub mutexes-set_mutex : (m : ℕ) (x : Mutex) (o : Objects) → (set_mutex m x o).mutexes m ≡ x
unfolding set_mutex
mutexes-set_mutex m x o = update-same o.mutexes m x

pub set_mutex-set_mutex :
    (m : ℕ) (x y : Mutex) (o : Objects) → set_mutex m y (set_mutex m x o) ≡ set_mutex m y o
unfolding set_mutex
set_mutex-set_mutex m x y o = ap (λ f. record o { mutexes = f }) (update-update o.mutexes m x y)
