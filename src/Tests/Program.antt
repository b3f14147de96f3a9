-- ===== src/Tests/Program.antt =====
-- Operations on synchronization objects in bodies, at concrete inputs.
use libcxxdes.Base.{ℕ, ◌≡◌, refl, false, Option, true, none, some, [], ◌∷◌}
use libcxxdes.Base.Int.{pos, ◌≤ℤ◌}
use libcxxdes.Core.Token.{inherit}
use libcxxdes.Core.World.{World, done, threw}
use libcxxdes.Core.Queue.Selection.{selection}
use libcxxdes.Core.Coroutine.{new_coroutine, bind_to}
use libcxxdes.Core.Environment.{step}
use libcxxdes.Core.Environment.Clock.{after}
use libcxxdes.Core.Process.{
  Leaf, Layer, single, Value, Program, suspended_on, co_return, inline, create, leaf_await,
  resume_frame, Result,
}
use libcxxdes.Sync.Event.{wait}
use libcxxdes.Sync.Mutex
use libcxxdes.Sync.Program.{
  Shared, WithEvents, on_event, waits, with_events, semaphore_at, semaphore_event, operation_body,
  acquire, down, round, set_objects, release_body,
}
use libcxxdes.Sync.Program.Rounds.{SharedProgram, SharedBody, drive_rounds, behind_wait}
use libcxxdes.Sync.Program.Refinement.{after_round, operation_body-round, resume_frame-round}
use libcxxdes.Sync.Program.Handles.{after_release, release_body-release}
use libcxxdes.Sync.Program.Clock.{synced_await, synced-mono}
use libcxxdes.Examples.Base.{world_for}
use libcxxdes.Examples.Synced.{no_objects}

-- Coroutine 0 runs.
abbrev running_world : World (SharedProgram Leaf (Unit {0}))
running_world = record (world_for (record { objects = no_objects; vars = tt })) { current = some 0 }

abbrev and_return : Result (Option ℕ) → SharedBody Leaf (Unit {0})
and_return r = co_return none

operation_body-round_example :
    drive_rounds leaf_await 2 0
      (inline (operation_body on_event (acquire 3)) and_return)
      running_world
    ≡ after_round leaf_await
        (acquire 3)
        1
        0
        and_return
        running_world
        (round (acquire 3) 0 no_objects running_world)
operation_body-round_example =
    operation_body-round leaf_await (acquire 3) 1 0 and_return running_world refl

-- The mutexes are owned, and token 9 waits for them.
abbrev owned_world : World (SharedProgram Leaf (Unit {0}))
owned_world =
    set_objects
      (record no_objects {
        mutexes = λ m. record { owned = true; event = record { tokens = 9 ∷ [] } };
      })
      running_world

release_body-release_example :
    drive_rounds leaf_await 2 0 (inline (release_body on_event (some 3)) and_return) owned_world
    ≡ after_release leaf_await 2 0 and_return owned_world 3 (
        Mutex.release
          (record { x = some 3 })
          (owned_world.program.shared.objects.mutexes 3)
          owned_world)
release_body-release_example = release_body-release leaf_await 2 0 and_return owned_world (some 3)

-- Coroutine 0 has been resumed in a wait for the semaphore 3.
abbrev resumed_world : World (SharedProgram Leaf (Unit {0}))
resumed_world = record running_world {
  program = record running_world.program {
    frames = λ f.
        suspended_on (on_event (waits (semaphore_event (semaphore_at 3)) (wait (pos 0) inherit))) (
          behind_wait leaf_await and_return
            (inline (operation_body on_event (down (semaphore_at 3))) and_return));
  };
}

resume_frame-round_example :
    resume_frame (with_events leaf_await) 0 resumed_world
    ≡ after_round leaf_await
        (down (semaphore_at 3))
        3
        0
        and_return
        resumed_world
        (round (down (semaphore_at 3)) 0 no_objects resumed_world)
resume_frame-round_example =
    resume_frame-round leaf_await (down (semaphore_at 3)) 3 0 and_return
      (semaphore_event (semaphore_at 3)) (wait (pos 0) inherit) resumed_world refl refl refl

-- A coroutine that acquires the mutex 0, bound.
abbrev acquiring_world :
    World (Program (Layer (WithEvents (Layer (Layer Leaf)))) Value (Shared (Unit {0})))
acquiring_world =
    elim (bind_to (new_coroutine 0) (
      create {C = Layer (WithEvents (Layer (Layer Leaf)))} false
        (operation_body (λ e. single (on_event e)) (acquire 0))
        (world_for (record { objects = no_objects; vars = tt })))) [
          | done (p, w) ↦ w
          | threw e (p, w) ↦ w
        ]

synced-mono_example :
    acquiring_world.now ≤ℤ (after (step selection (resume_frame synced_await) acquiring_world)).now
synced-mono_example = synced-mono selection acquiring_world
