-- ===== src/Core/Process/Clock.antt =====
-- Coroutines of a program cannot change the clock: awaiting, calling and ending keep `now_`, so
-- that what is said of `step` for coroutines that leave the clock alone holds for them.
mod Defs
mod Leaves
mod Layers
pub use Defs.{world_in, KeepsNow, AwaitKeepsNow}
pub use Leaves.{map_first-world, leaf-KeepsNow}
pub use Layers.{layer-KeepsNow}
use libcxxdes.Base.{
  ℕ, zero, suc, ◌≡◌, refl, sym, ap, ◌∙◌, ◌⊎◌, Bool, true, false, Bool-cases, inl, inr, Option, none,
  some, Option-cases, List, [], ◌∷◌, arith, if◌then◌else◌, ◌==◌, update,
}
use libcxxdes.Base.Int.{ℤ, pos, ◌≤ℤ◌}
use libcxxdes.Core.Token.{Exception}
use libcxxdes.Core.World.{World, Outcome, done, threw, set_coroutine}
use libcxxdes.Core.Queue.{PriorityQueue}
use libcxxdes.Core.Environment.{step}
use libcxxdes.Core.Environment.Clock.{after, step-now-mono}
use libcxxdes.Core.Schedule.{schedule_all, schedule_from_now, schedule_all-SameObjects}
use libcxxdes.Core.Composition.{Awaitable}
use libcxxdes.Core.Coroutine.{
  set_priority, set_latency, new_coroutine, set_eptr, set_eptr_all, propagate_exception,
  schedule_completion, do_return, return_value, unhandled_exception,
}
use libcxxdes.Core.Process.Frames.{
  Result, returned, raised, Body, co_return, co_throw, co_await, act, look, call, this_coroutine,
  inspect, call_unique, loop, loop_round, with_priority, with_latency, Frame, fresh, suspended_on,
  gone, Program,
}
use libcxxdes.Core.Process.Drive.{
  Await, Awaited, suspends, yields, set_shared, create, end_frame, finish_return, finish_throw,
  await_in, drive_at, jump_for, get_stuck, drive, resume_frame,
}
use libcxxdes.Core.Process.Awaits.{Value, Leaf, leaf_await, Layer, layer_await}
use libcxxdes.Core.Process.Clock.Defs.{world_in, KeepsNow, AwaitKeepsNow, Outcome-cases}

-- A call that may dereference a null pointer leaves the clock alone where it returns.
abbrev OptionKeeps : {S : Type 0} → World S → Option (World S) → Type 0
OptionKeeps w none = Unit
OptionKeeps w (some v) = v.now ≡ w.now

module _ {S : Type 0} where
  set_eptr_all-now : (e : Exception) (ts : List ℕ) (w : World S) → (set_eptr_all e ts w).now ≡ w.now
  unfolding set_eptr_all
  set_eptr_all-now e [] w = refl
  set_eptr_all-now e (t ∷ ts) w = set_eptr_all-now e ts (set_eptr e t w)

  do_return-now : (c : ℕ) (w : World S) → OptionKeeps w (do_return c w)
  unfolding do_return
  do_return-now c w =
      ground (arith, (schedule_all-SameObjects (w.coroutine c).completion_tokens w).same_now)

  return_value-now : (x c : ℕ) (w : World S) → OptionKeeps w (return_value x c w)
  unfolding return_value set_coroutine
  return_value-now x c w = do_return-now c _

  unhandled_exception-now :
      (e : Exception) (c : ℕ) (w : World S) → OptionKeeps w (unhandled_exception e c w)
  unfolding unhandled_exception propagate_exception
  unhandled_exception-now e c w = ground (
    arith,
    do_return-now c (set_eptr_all e (w.coroutine c).completion_tokens w),
    set_eptr_all-now e (w.coroutine c).completion_tokens w,
  )

module _ {C V G : Type 0} where
  end_frame-now :
      (c : ℕ) (o : Option (World (Program C V G))) (w : World (Program C V G))
      → OptionKeeps w o
      → (end_frame c o w).now ≡ w.now
  unfolding end_frame
  end_frame-now c none w h = refl
  end_frame-now c (some v) w h = h

  finish_return-now :
      (c : ℕ) (r : Option ℕ) (w : World (Program C V G)) → (finish_return c r w).now ≡ w.now
  unfolding finish_return
  finish_return-now c none w = end_frame-now c (do_return c w) w (do_return-now c w)
  finish_return-now c (some x) w = end_frame-now c (return_value x c w) w (return_value-now x c w)

  create-now :
      (only : Bool) (b : Body C V G) (w : World (Program C V G)) → (create only b w).now ≡ w.now
  unfolding create
  create-now only b w = refl

module _ {C V G : Type 0} (aw : Await (Program C V G) C V) (keeps : AwaitKeepsNow aw) where
  open keeps use {ops_now, value_now}
  open ops_now use {bind_now, ready_now, suspend_now}

  abbrev awaited_world : Awaited aw → World (Program C V G)
  awaited_world (suspends a w) = w
  awaited_world (yields r w) = w

  await_in-now :
      (c : ℕ) (a : C) (w : World (Program C V G)) → (awaited_world (await_in aw c a w)).now ≡ w.now
  unfolding await_in
  await_in-now c a w = elim (Outcome-cases (aw.ops.child_bind a (w.coroutine c).priority w)) [
    | inr (x, (b, v), e) ↦ ground (arith, e, bind_now a (w.coroutine c).priority w)
    | inl ((b, v), e) ↦
        let (r, d, u) = aw.ops.child_ready b v in
        ground (
          arith,
          e,
          bind_now a (w.coroutine c).priority w,
          ready_now b v,
          suspend_now d w.current u,
          value_now d u,
        )
  ]

  Awaited-cases :
      (x : Awaited aw)
      → ((b : C) × (v : World (Program C V G)) × (x ≡ suspends b v))
        ⊎ ((r : Result V) × (v : World (Program C V G)) × (x ≡ yields r v))
  Awaited-cases (suspends b v) = inl (b, v, refl)
  Awaited-cases (yields r v) = inr (r, v, refl)

  module _ (jump : ℕ → Body C V G → World (Program C V G) → World (Program C V G))
      (jump_now : (c : ℕ) (b : Body C V G) (w : World (Program C V G))
        → (jump c b w).now ≡ w.now) where
    drive_at-now :
        (c : ℕ) (b : Body C V G) (w : World (Program C V G)) → (drive_at aw jump c b w).now ≡ w.now
    unfolding drive_at set_priority set_latency
    drive_at-now c (co_return r) w = finish_return-now c r w
    drive_at-now c (co_throw e) w =
        end_frame-now c (unhandled_exception e c w) w (unhandled_exception-now e c w)
    drive_at-now c (co_await a k) w = elim (Awaited-cases (await_in aw c a w)) [
      | inl (b, v, e) ↦
          rw (drive_at, e) (ap (λ x. (awaited_world x).now) (sym e) ∙ await_in-now c a w)
      | inr (r, v, e) ↦
          rw (drive_at, e)
            (drive_at-now c (k r) v ∙ ap (λ x. (awaited_world x).now) (sym e) ∙ await_in-now c a w)
    ]
    drive_at-now c (act f b) w = drive_at-now c b _
    drive_at-now c (look k) w = drive_at-now c (k w.now w.program.shared) w
    drive_at-now c (this_coroutine k) w = drive_at-now c (k c) w
    drive_at-now c (inspect d k) w = drive_at-now c (k (w.coroutine d)) w
    drive_at-now c (call b k) w = drive_at-now c (k w.program.next_frame) (create false b w)
    drive_at-now c (call_unique b k) w = drive_at-now c (k w.program.next_frame) (create true b w)
    drive_at-now c (loop f s k) w = jump_now c (loop_round f s k) w
    drive_at-now c (with_priority d p b) w = drive_at-now c b (set_priority p (new_coroutine d) w)
    drive_at-now c (with_latency d l b) w = drive_at-now c b (set_latency l (new_coroutine d) w)

  jump_for-now :
      (n c : ℕ) (b : Body C V G) (w : World (Program C V G)) → (jump_for aw n c b w).now ≡ w.now
  unfolding jump_for get_stuck
  jump_for-now zero c b w = refl
  jump_for-now (suc n) c b w = drive_at-now (jump_for aw n) (jump_for-now n) c b w

  drive-now : (c : ℕ) (b : Body C V G) (w : World (Program C V G)) → (drive aw c b w).now ≡ w.now
  unfolding drive
  drive-now c b w =
      drive_at-now (jump_for aw w.program.rounds) (jump_for-now w.program.rounds) c b w

  -- @
  pub resume_frame-now : (c : ℕ) (w : World (Program C V G)) → (resume_frame aw c w).now ≡ w.now
  unfolding resume_frame
  resume_frame-now c w = go (w.program.frames c) refl
    where
      go : (f : Frame C V G) → w.program.frames c ≡ f → (resume_frame aw c w).now ≡ w.now
      go (fresh b) e = ground (arith, e, drive-now c b w)
      go (suspended_on a k) e =
          ground (
            arith,
            e,
            value_now a w,
            drive-now c (k (aw.resume_value a w).0) (aw.resume_value a w).1,
          )
      go gone e = ground (arith, e)

-- For programs over the timeouts, coroutines and asynchronous starts of the library and two layers
-- of compositions of them, a step never takes `now` back, whatever the bodies do and even if it
-- throws.
pub process-mono :
    {G : Type 0} (q : PriorityQueue) (w : World (Program (Layer (Layer Leaf)) Value G))
    → w.now ≤ℤ (after (step q (resume_frame (layer_await (layer_await leaf_await))) w)).now
process-mono q w =
    step-now-mono q (resume_frame (layer_await (layer_await leaf_await)))
      (resume_frame-now (layer_await (layer_await leaf_await))
        (layer-KeepsNow _ (layer-KeepsNow _ leaf-KeepsNow)))
      w
