-- ===== src/Sync/Program/Refinement.antt =====
-- The subroutines of include/cxxdes/sync as bodies, in a resumption of a coroutine, beside the
-- rounds of the components.
use libcxxdes.Sync.Resource
use libcxxdes.Sync.Program.Awaits.{event_ready}
use libcxxdes.Core.Process.{inline_then, await_in, await_then}
use libcxxdes.Base.{
  ℕ, suc, arith, ◌+◌, ◌-◌, ◌≡◌, refl, sym, ap, ◌∙◌, true, Bool-cases, inl, inr, Option, none, some,
  [], ◌∷◌, List-cases, ◌++◌,
}
use libcxxdes.Core.World.{World}
use libcxxdes.Core.Process.{
  Await, Value, Result, returned, co_return, inline, Frame, fresh, suspended_on, gone, crash, drive,
  resume_frame, drive_at, set_frame, set_shared, jump_for,
}
use libcxxdes.Sync.Progress.{waiting, finished}
use libcxxdes.Sync.Event.{Wait, wait_in, wake}
use libcxxdes.Sync.Semaphore.{Semaphore}
use libcxxdes.Sync.Queue.{Queue}
use libcxxdes.Sync.Program.Store.{
  Objects, Shared, SemaphoreAt, EventAt, queue_at, semaphore_event, event_of, set_event,
  resource_at, semaphore_of, set_semaphore, set_queue, set_objects,
}
use libcxxdes.Sync.Program.Ends.{acquire-ends, up-ends, down-ends, put-ends, pop-ends}
use libcxxdes.Sync.Program.Wakes.{wake_at, wake_at-set_semaphore, wake_at-set_queue}
use libcxxdes.Sync.Program.Awaits.{waits, WithEvents, on_event, with_events, with_events_value}
use libcxxdes.Sync.Program.Operations.{
  Operation, acquire, up, down, put, pop, operation_body, event_for, Round, round, of_acquire,
  acquire_unit, of_semaphore, of_put, of_pop,
}
use libcxxdes.Sync.Program.Bodies.{wake_then, on_objects, take_front}
use libcxxdes.Sync.Program.Rounds.{
  SharedProgram, SharedBody, suspended_wait, behind_wait, drive_rounds, wait_until-passes,
  wait_until-waits, wake_then-goes_on,
}
use libcxxdes.Sync.Program.Shapes.{is_ready, behind, operation_body_lem, of_unit_down, round-waits}

module _ {A X : Type 0} (inner : Await (SharedProgram A X) A Value) where
  -- What a round comes to: the coroutine waits on the operation's event, to begin the operation
  -- again when it is resumed, or it goes on behind the operation.
  abbrev pub after_round :
      Operation
      → ℕ
      → ℕ
      → (Result (Option ℕ) → SharedBody A X)
      → World (SharedProgram A X)
      → Round (SharedProgram A X)
      → World (SharedProgram A X)
  after_round op n c k w r = elim r.progress [
    | waiting ↦
        set_frame c
          (suspended_on (suspended_wait inner (event_for op) c w)
            (behind_wait inner k (inline (operation_body on_event op) k)))
          (set_objects r.left r.world)
    | finished ↦ drive_rounds inner n c (k (returned r.value)) (set_objects r.left r.world)
  ]

  module _ (n c : ℕ) (k : Result (Option ℕ) → SharedBody A X) (w : World (SharedProgram A X)) where
    abbrev now_objects : Objects
    now_objects = w.program.shared.objects

    behind_semaphore :
        (s : SemaphoreAt) (x : Semaphore)
        → drive_rounds inner n c
            (inline (wake_then on_event (semaphore_event s) (co_return none)) k)
            (set_objects (set_semaphore s x now_objects) w)
          ≡ (let (evt, v) = wake x.event w in
              drive_rounds inner n c
                (k (returned none))
                (set_objects (set_semaphore s (record x { event = evt }) now_objects) v))
    unfolding inline
    behind_semaphore s x =
        wake_then-goes_on inner (jump_for (with_events inner) n) (semaphore_event s)
          (co_return none) k c (set_objects (set_semaphore s x now_objects) w)
        ∙ ap (drive_rounds inner n c (k (returned none))) (wake_at-set_semaphore s x now_objects w)

    behind_unit :
        (r : ℕ) (v : World (SharedProgram A X))
        → drive_rounds inner n c
            (inline
              (inline_then
                (wake_then on_event (semaphore_event (resource_at r)) (co_return none))
                (λ u. co_return (some r)))
              k)
            v
          ≡ drive_rounds inner n c
              (k (returned (some r)))
              (wake_at (semaphore_event (resource_at r)) v)
    unfolding drive_at inline inline_then await_in with_events event_ready wake_then await_then
    behind_unit r v = refl

    behind_queue :
        (q : ℕ) (r : Option ℕ) (x : Queue ℕ)
        → drive_rounds inner n c
            (inline (wake_then on_event (queue_at q) (co_return r)) k)
            (set_objects (set_queue q x now_objects) w)
          ≡ (let (evt, v) = wake x.event w in
              drive_rounds inner n c
                (k (returned r))
                (set_objects (set_queue q (record x { event = evt }) now_objects) v))
    unfolding inline
    behind_queue q r x =
        wake_then-goes_on inner (jump_for (with_events inner) n) (queue_at q) (co_return r) k c
          (set_objects (set_queue q x now_objects) w)
        ∙ ap (drive_rounds inner n c (k (returned r))) (wake_at-set_queue q x now_objects w)

    behind-ends :
        (op : Operation)
        → is_ready op now_objects ≡ true
        → drive_rounds inner n c (inline (behind op) k) w
          ≡ after_round op n c k w (round op c now_objects w)
    unfolding inline inline_then on_objects set_shared set_objects drive_at set_semaphore
        semaphore_of wake wake_then Resource.acquire
    behind-ends (acquire m) h = sym (
        ap (λ r. after_round (acquire m) n c k w (of_acquire m now_objects r))
          (acquire-ends c w m (now_objects.mutexes m) (ground arith)))
    behind-ends (acquire_unit r) h =
        let sem = semaphore_of (resource_at r) now_objects in
        behind_unit r (
          set_objects
            (set_semaphore (resource_at r) (record sem { value = sem.value - 1 }) now_objects) w)
        ∙ ap (drive_rounds inner n c (k (returned (some r)))) (
            wake_at-set_semaphore (resource_at r) (record sem { value = sem.value - 1 }) now_objects
              w)
        ∙ sym (
            ap (λ t. after_round (acquire_unit r) n c k w (of_unit_down r now_objects t))
              (down-ends c w sem h))
    behind-ends (up s) h =
        behind_semaphore s
          (record (semaphore_of s now_objects) { value = (semaphore_of s now_objects).value + 1 })
        ∙ sym (
            ap (λ r. after_round (up s) n c k w (of_semaphore s now_objects r))
              (up-ends c w (semaphore_of s now_objects) h))
    behind-ends (down s) h =
        behind_semaphore s
          (record (semaphore_of s now_objects) { value = (semaphore_of s now_objects).value - 1 })
        ∙ sym (
            ap (λ r. after_round (down s) n c k w (of_semaphore s now_objects r))
              (down-ends c w (semaphore_of s now_objects) h))
    behind-ends (put q a) h =
        behind_queue q none
          (record (now_objects.queues q) { items = (now_objects.queues q).items ++ a ∷ [] })
        ∙ sym (
            ap (λ r. after_round (put q a) n c k w (of_put q now_objects r))
              (put-ends c w a (now_objects.queues q) h))
    behind-ends (pop q) h = elim (List-cases (now_objects.queues q).items) [
      | inl e ↦ ground arith
      | inr (a, rest, e) ↦
          ap (λ l. drive_rounds inner n c (inline (take_front on_event q l) k) w) e
          ∙ behind_queue q (some a) (record (now_objects.queues q) { items = rest })
          ∙ sym (
              ap (λ r. after_round (pop q) n c k w (of_pop q now_objects r))
                (pop-ends c w (now_objects.queues q) a rest e))
    ]

  abbrev waited : Operation → ℕ → World (SharedProgram A X) → World (SharedProgram A X)
  waited op c w =
      let o = w.program.shared.objects in
      let (evt, v) = wait_in c (event_of (event_for op) o) w in
      set_objects (set_event (event_for op) evt o) v

  -- A coroutine that runs an operation of a mutex, semaphore, resource or queue as the subroutine
  -- with its loop does exactly one round of the operation, if it may run at least one round of a
  -- loop: it is suspended in the event's queue, to begin the operation again when it is resumed,
  -- or goes on behind the operation with its value.
  pub operation_body-round :
      (op : Operation) (n c : ℕ) (k : Result (Option ℕ) → SharedBody A X)
      (w : World (SharedProgram A X))
      → w.current ≡ some c
      → drive_rounds inner (suc n) c (inline (operation_body on_event op) k) w
        ≡ after_round op n c k w (round op c w.program.shared.objects w)
  operation_body-round op n c k w h =
      ap (λ b. drive_rounds inner (suc n) c (inline b k) w) (operation_body_lem op)
      ∙ elim (Bool-cases (is_ready op w.program.shared.objects)) [
        | inl e ↦
            wait_until-passes inner (is_ready op) (event_for op) (behind op) k n c w e
            ∙ behind-ends n c k w op e
        | inr e ↦
            wait_until-waits inner (is_ready op) (event_for op) (behind op) k n c w e h
            ∙ ap
                (λ b.
                  set_frame c
                    (suspended_on (suspended_wait inner (event_for op) c w)
                      (behind_wait inner k (inline b k)))
                    (waited op c w))
                (sym (operation_body_lem op))
            ∙ sym (ap (after_round op n c k w) (round-waits c w.program.shared.objects w op e))
      ]

  -- If the current coroutine is suspended in the wait of such an operation, and may run at least
  -- one round of a loop, then to resume it is one more round of the operation, whatever has
  -- happened to the object meanwhile.
  pub resume_frame-round :
      (op : Operation) (n c : ℕ) (k : Result (Option ℕ) → SharedBody A X) (e : EventAt) (a : Wait)
      (w : World (SharedProgram A X))
      → w.current ≡ some c
      → w.program.rounds ≡ suc n
      → w.program.frames c
        ≡ suspended_on
            (on_event (waits e a))
            (behind_wait inner k (inline (operation_body on_event op) k))
      → resume_frame (with_events inner) c w
        ≡ after_round op n c k w (round op c w.program.shared.objects w)
  unfolding resume_frame drive with_events with_events_value
  resume_frame-round op n c k e a w h h' h'' =
      ap (λ f. resumed f) h''
      ∙ ap (λ m. drive_rounds inner m c (inline (operation_body on_event op) k) w) h'
      ∙ operation_body-round op n c k w h
    where
      resumed : Frame (WithEvents A) Value (Shared X) → World (SharedProgram A X)
      resumed f = elim f [
        | fresh b ↦ drive (with_events inner) c b w
        | suspended_on x g ↦
            let (r, v) = with_events_value inner x w in drive (with_events inner) c (g r) v
        | gone ↦ crash w
      ]
