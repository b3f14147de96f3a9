-- ===== src/Sync/Program/Rounds.antt =====
-- The loops around `co_await event_.wait()` of include/cxxdes/sync, in a resumption of a coroutine.
use mathlib.Core.Path.{fun_ext}
use libcxxdes.Base.{
  ℕ, suc, ◌≡◌, refl, ap, ◌∙◌, Bool, true, false, Option, none, some, if◌then◌else◌,
}
use libcxxdes.Base.Int.{pos}
use libcxxdes.Core.Token.{inherit}
use libcxxdes.Core.World.{World}
use libcxxdes.Core.Process.{
  Program, Await, Value, Result, returned, raised, Body, co_return, loop_round, loop_next, inline,
  suspended_on, drive_at, jump_for, set_frame, await_in, await_then, outside_try,
}
use libcxxdes.Sync.Event
use libcxxdes.Sync.Event.{wait, wait_in}
use libcxxdes.Sync.Program.Store.{Objects, Shared, EventAt, event_of, set_event, set_objects}
use libcxxdes.Sync.Program.Awaits.{
  waits, WithEvents, on_event, with_events, event_ready, event_suspend,
}
use libcxxdes.Sync.Program.Wakes.{wake_at}
use libcxxdes.Sync.Program.Bodies.{wait_round, wait_until, wait_on, wake_then, behind_loop}

abbrev pub SharedProgram : Type 0 → Type 0 → Type 0
SharedProgram A X = Program (WithEvents A) Value (Shared X)

abbrev pub SharedBody : Type 0 → Type 0 → Type 0
SharedBody A X = Body (WithEvents A) Value (Shared X)

module _ {A X : Type 0} (inner : Await (SharedProgram A X) A Value) where
  -- What the wait is when its coroutine is suspended.
  abbrev pub suspended_wait : EventAt → ℕ → World (SharedProgram A X) → WithEvents A
  suspended_wait e c w =
      let a = Event.await_bind (wait (pos 0) inherit) (w.coroutine c).priority in
      on_event (waits e (record a { tkn = some w.token_count }))

  -- How the coroutine goes on behind a wait.
  abbrev pub behind_wait :
      (Result (Option ℕ) → SharedBody A X) → SharedBody A X → Result Value → SharedBody A X
  behind_wait k again r = elim r [ returned v ↦ again | raised e ↦ k (raised e) ]

  abbrev pub drive_rounds :
      ℕ → ℕ → SharedBody A X → World (SharedProgram A X) → World (SharedProgram A X)
  drive_rounds n = drive_at (with_events inner) (jump_for (with_events inner) n)

  abbrev round_of : Bool → EventAt → (Result (Option ℕ) → SharedBody A X) → SharedBody A X
  round_of b e next =
      inline
        (if b then co_return none else await_then (wait_on on_event e) (λ v. co_return (some 0)))
        next

  abbrev after_loop :
      SharedBody A X → (Result (Option ℕ) → SharedBody A X) → Result (Option ℕ) → SharedBody A X
  after_loop b k r = inline (behind_loop on_event b r) k

  abbrev next_round :
      (Objects → Bool)
      → EventAt
      → SharedBody A X
      → (Result (Option ℕ) → SharedBody A X)
      → Result Value
      → SharedBody A X
  next_round ready e b k r =
      inline (outside_try (λ v. co_return (some 0)) r)
        (loop_next (wait_round on_event ready e) (after_loop b k))

  -- Behind the wait the loop is at its beginning.
  next_round_lem :
      (ready : Objects → Bool) (e : EventAt) (b : SharedBody A X)
      (k : Result (Option ℕ) → SharedBody A X)
      → next_round ready e b k ≡ behind_wait k (inline (wait_until on_event ready e b) k)
  unfolding inline loop_next outside_try wait_until
  next_round_lem ready e b k = fun_ext by_result
    where
      by_result :
          (x : Result Value)
          → next_round ready e b k x ≡ behind_wait k (inline (wait_until on_event ready e b) k) x
      by_result (returned v) = refl
      by_result (raised d) = refl

  module _ (ready : Objects → Bool) (e : EventAt) (b : SharedBody A X)
      (k : Result (Option ℕ) → SharedBody A X) (n c : ℕ) (w : World (SharedProgram A X)) where
    -- Where the condition holds, the loop is over.
    pub wait_until-passes :
        ready w.program.shared.objects ≡ true
        → drive_rounds (suc n) c (inline (wait_until on_event ready e b) k) w
          ≡ drive_rounds n c (inline b k) w
    unfolding drive_at jump_for loop_round inline wait_until
    wait_until-passes h =
        ap
          (λ x.
            drive_rounds n c
              (round_of x e (loop_next (wait_round on_event ready e) (after_loop b k))) w)
          h

    -- Where it does not, the coroutine is in the event's queue, and begins again when it is
    -- resumed.
    pub wait_until-waits :
        ready w.program.shared.objects ≡ false
        → w.current ≡ some c
        → drive_rounds (suc n) c (inline (wait_until on_event ready e b) k) w ≡ (
            let (evt, v) = wait_in c (event_of e w.program.shared.objects) w in
            set_frame c
              (suspended_on
                (suspended_wait e c w)
                (behind_wait k (inline (wait_until on_event ready e b) k)))
              (set_objects (set_event e evt w.program.shared.objects) v))
    unfolding drive_at jump_for loop_round inline await_in with_events event_suspend event_ready
        await_then wait_in wait_until
    wait_until-waits h h' =
        ap
          (λ x.
            drive_rounds n c
              (round_of x e (loop_next (wait_round on_event ready e) (after_loop b k))) w)
          h
        ∙ ap
            (λ x.
              let a = Event.await_bind (wait (pos 0) inherit) (w.coroutine c).priority in
              let (evt, a', v) = Event.await_suspend (event_of e w.program.shared.objects) a x w in
              set_frame c (suspended_on (on_event (waits e a')) (next_round ready e b k))
                (set_objects (set_event e evt w.program.shared.objects) v))
            h'
        ∙ ap
            (λ g.
              let (evt, v) = wait_in c (event_of e w.program.shared.objects) w in
              set_frame c (suspended_on (suspended_wait e c w) g)
                (set_objects (set_event e evt w.program.shared.objects) v))
            (next_round_lem ready e b k)

  -- A wake does not suspend.
  pub wake_then-goes_on :
      (jump : ℕ → SharedBody A X → World (SharedProgram A X) → World (SharedProgram A X))
      (e : EventAt) (b : SharedBody A X) (k : Result (Option ℕ) → SharedBody A X) (c : ℕ)
      (w : World (SharedProgram A X))
      → drive_at (with_events inner) jump c (inline (wake_then on_event e b) k) w
        ≡ drive_at (with_events inner) jump c (inline b k) (wake_at e w)
  unfolding drive_at inline await_in with_events event_ready wake_then await_then
  wake_then-goes_on jump e b k c w = refl
