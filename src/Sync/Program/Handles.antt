-- ===== src/Sync/Program/Handles.antt =====
-- include/cxxdes/sync/mutex.hpp: the release of a handle, as a body.
use libcxxdes.Base.{ℕ, false, ◌≡◌, refl, ap, ◌∙◌, Option, none, some}
use libcxxdes.Core.World.{World, Outcome, done, threw}
use libcxxdes.Core.Process.{
  Await, Value, Result, returned, raised, co_return, inline, drive_at, jump_for, set_shared,
}
use libcxxdes.Sync.Mutex
use libcxxdes.Sync.Mutex.{Mutex, Handle, valid}
use libcxxdes.Sync.Program.Store.{mutex_at, set_mutex, set_objects}
use libcxxdes.Sync.Program.Awaits.{on_event, with_events}
use libcxxdes.Sync.Program.Bodies.{on_objects, release_body}
use libcxxdes.Sync.Program.Wakes.{wake_at-set_mutex}
use libcxxdes.Sync.Program.Rounds.{SharedProgram, SharedBody, drive_rounds, wake_then-goes_on}

module _ {A X : Type 0} (inner : Await (SharedProgram A X) A Value) (n c : ℕ)
    (k : Result (Option ℕ) → SharedBody A X) (w : World (SharedProgram A X)) where
  -- What `handle::release` comes to.
  abbrev pub after_release :
      ℕ → Outcome (Handle × Mutex × World (SharedProgram A X)) → World (SharedProgram A X)
  after_release m r = elim r [
    | done (h, x, v) ↦
        drive_rounds inner n c (k (returned none))
          (set_objects (set_mutex m x w.program.shared.objects) v)
    | threw e (h, x, v) ↦ drive_rounds inner n c (k (raised e)) w
  ]

  release_body-valid :
      (m : ℕ)
      → drive_rounds inner n c (inline (release_body on_event (some m)) k) w
        ≡ after_release m
            (Mutex.release (record { x = some m }) (w.program.shared.objects.mutexes m) w)
  unfolding release_body Mutex.release valid inline on_objects set_shared set_objects drive_at
  release_body-valid m =
      let x : Mutex = record (w.program.shared.objects.mutexes m) { owned = false } in
      wake_then-goes_on inner (jump_for (with_events inner) n) (mutex_at m) (co_return none) k c
        (set_objects (set_mutex m x w.program.shared.objects) w)
      ∙ ap (drive_rounds inner n c (k (returned none)))
          (wake_at-set_mutex m x w.program.shared.objects w)

  release_body-invalid :
      (m : ℕ)
      → drive_rounds inner n c (inline (release_body on_event none) k) w
        ≡ after_release m
            (Mutex.release (record { x = none }) (w.program.shared.objects.mutexes m) w)
  unfolding release_body Mutex.release valid inline
  release_body-invalid m = refl

  -- `handle::release` of a handle of the mutex at that address, or of one that is null.
  abbrev pub address : Option ℕ → ℕ
  address h = elim h [ none ↦ 0 | some m ↦ m ]

  -- In a body, the release of a mutex handle comes to `handle::release`. Where that is done, the
  -- body goes on with the mutex, its event and the world as `handle::release` leaves them; where
  -- the handle is null, its exception is raised in the body, and nothing else has changed. The
  -- handle itself, a variable of the body, is left out.
  pub release_body-release :
      (h : Option ℕ)
      → drive_rounds inner n c (inline (release_body on_event h) k) w
        ≡ after_release
            (address h)
            (Mutex.release (record { x = h }) (w.program.shared.objects.mutexes (address h)) w)
  release_body-release none = release_body-invalid 0
  release_body-release (some m) = release_body-valid m
