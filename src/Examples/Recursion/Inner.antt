-- ===== src/Examples/Recursion/Inner.antt =====
-- A coroutine that calls `g` of src/examples/process_rewrite.cpp, up to the suspension on the
-- inner call, and the return of a value.
use libcxxdes.Base.{ℕ, suc, ◌+◌, ◌<◌, ◌≤◌, ◌≡◌, ◌≢◌, refl, ◌∙◌, false, none, some, [], ◌∷◌, arith}
use libcxxdes.Base.Int.{ℤ, pos, ◌+ℤ◌, eq_of_parts, +ℤ_parts}
use libcxxdes.Core.World.{World, set_coroutine, new_token, schedule_token, set_token}
use libcxxdes.Core.Coroutine
use libcxxdes.Core.Coroutine.{
  new_coroutine, start, bind, suspend, await_resume_tag, add_completion_token, push_coro,
  return_value, do_return, schedule_completion, unmanage,
}
use libcxxdes.Core.Schedule.{schedule_all, schedule_from_now}
use libcxxdes.Core.Process.Sequence.{settled}
use libcxxdes.Examples.Values.{g}
use libcxxdes.Core.Process.{
  Body, co_return, Leaf, join, Value, number, Result, fresh, suspended_on, Program, leaf_await,
  leaf_ops, create, await_in, drive, drive_at, set_frame, finish_return, end_frame, await_then,
  outside_try, suspends, map_first,
}

-- `g` on the awaitables without compositions
abbrev pub g_of : {G : Type 0} → ℕ → Body Leaf Value G
g_of k = g join k

pub add_zero : (t : ℤ) → t +ℤ pos 0 ≡ t
add_zero t = eq_of_parts _ _ (omega (arith, +ℤ_parts t (pos 0)))

pub zero_add : (t : ℤ) → pos 0 +ℤ t ≡ t
zero_add t = eq_of_parts _ _ (omega (arith, +ℤ_parts (pos 0) t))

module _ {G : Type 0} where
  -- A coroutine that is called, and not bound yet.
  pub record IsNew (n : ℕ) (u : World (Program Leaf Value G)) : Type 0 where
    pub no_env : (u.coroutine n).env ≡ none
    pub open_yet : (u.coroutine n).complete ≡ false
    pub shared_state : (u.coroutine n).unique ≡ false
    pub nobody_waits : (u.coroutine n).completion_tokens ≡ []
    pub no_latency : (u.coroutine n).latency ≡ pos 0

  pub create-IsNew :
      (b : Body Leaf Value G) (w : World (Program Leaf Value G))
      → IsNew w.program.next_frame (create false b w)
  unfolding create push_coro set_coroutine set_frame
  create-IsNew b w = record {
    no_env = ground arith;
    open_yet = ground arith;
    shared_state = ground arith;
    nobody_waits = ground arith;
    no_latency = ground arith;
  }

  -- What awaiting it leaves.
  abbrev pub suspension :
      ℕ → ℕ → World (Program Leaf Value G) → Coroutine.Coroutine × World (Program Leaf Value G)
  suspension c n u = suspend (new_coroutine n) u.current (start n (u.coroutine c).priority u)

  pub suspends_on_new :
      (c n : ℕ) (u : World (Program Leaf Value G))
      → IsNew n u
      → await_in leaf_await c (join (new_coroutine n)) u
        ≡ suspends (join (suspension c n u).0) (suspension c n u).1
  unfolding await_in leaf_await leaf_ops Coroutine.await_bind Coroutine.await_ready
      Coroutine.await_suspend bind start new_token schedule_token set_coroutine map_first
  suspends_on_new c n u new = ground (arith, new.no_env, new.open_yet)

  -- Coroutine `c` is about to run `b`, and the token `ct` waits for its end.
  pub record Entered (c tok ct : ℕ) (b : Body Leaf Value G) (w : World (Program Leaf Value G))
      : Type 0 where
    pub queued : w.queue ≡ tok ∷ []
    pub at_now : (w.token tok).time ≡ w.now
    pub no_handler : (w.token tok).handler ≡ none
    pub resumes : (w.token tok).coro_data ≡ some c
    pub body : w.program.frames c ≡ fresh b
    pub shared_state : (w.coroutine c).unique ≡ false
    pub one_waits : (w.coroutine c).completion_tokens ≡ ct ∷ []
    pub token_allocated : ct < w.token_count
    pub frame_allocated : c < w.program.next_frame

  -- Coroutine `c` has returned `x`, and that is all that has happened to what was there.
  pub record Left (c ct x : ℕ) (w v : World (Program Leaf Value G)) : Type 0 where
    pub queued : v.queue ≡ ct ∷ []
    pub same_now : v.now ≡ w.now
    pub value : (v.coroutine c).return_value ≡ some x
    pub ct_time : (v.token ct).time ≡ (w.token ct).time +ℤ w.now
    pub ct_handler : (v.token ct).handler ≡ (w.token ct).handler
    pub ct_coroutine : (v.token ct).coro_data ≡ (w.token ct).coro_data
    pub ct_eptr : (v.token ct).eptr ≡ (w.token ct).eptr
    pub same_tokens : (i : ℕ) → i < w.token_count → i ≢ ct → v.token i ≡ w.token i
    pub same_coroutines : (d : ℕ) → d < w.program.next_frame → d ≢ c → v.coroutine d ≡ w.coroutine d
    pub same_frames :
        (d : ℕ) → d < w.program.next_frame → d ≢ c → v.program.frames d ≡ w.program.frames d
    pub more_tokens : w.token_count ≤ v.token_count
    pub more_frames : w.program.next_frame ≤ v.program.next_frame

  pub return-Left :
      (c ct x : ℕ) (w : World (Program Leaf Value G))
      → (w.coroutine c).unique ≡ false
      → (w.coroutine c).completion_tokens ≡ ct ∷ []
      → w.queue ≡ []
      → Left c ct x w (settled (drive leaf_await c (co_return (some x)) w))
  unfolding drive finish_return end_frame return_value do_return schedule_completion schedule_all
      schedule_from_now schedule_token set_token set_coroutine unmanage set_frame
  return-Left c ct x w shared one empty = record {
    queued = ground (arith, shared, one, empty);
    same_now = ground (arith, shared, one, empty);
    value = ground (arith, shared, one, empty);
    ct_time = ground (arith, shared, one, empty);
    ct_handler = ground (arith, shared, one, empty);
    ct_coroutine = ground (arith, shared, one, empty);
    ct_eptr = ground (arith, shared, one, empty);
    same_tokens = λ i l n. ground (arith, shared, one, empty);
    same_coroutines = λ d l n. ground (arith, shared, one, empty);
    same_frames = λ d l n. ground (arith, shared, one, empty);
    more_tokens = ground (arith, shared, one, empty);
    more_frames = ground (arith, shared, one, empty);
  }

  -- What follows the inner call.
  abbrev pub add_to : ℕ → Result Value → Body Leaf Value G
  add_to k = outside_try (λ v. elim v [
    | number x ↦ co_return (some (suc k + x))
    | other ↦ co_return (some (suc k + 0))
  ])

  -- The world in which the inner call is awaited.
  abbrev pub called :
      ℕ → ℕ → World (Program Leaf Value G) → Coroutine.Coroutine × World (Program Leaf Value G)
  called k c w = suspension c w.program.next_frame (create false (g_of k) w)

  abbrev pub inner : ℕ → ℕ → World (Program Leaf Value G) → World (Program Leaf Value G)
  inner k c w =
      settled (set_frame c (suspended_on (join (called k c w).0) (add_to k)) (called k c w).1)

  pub drive-call :
      (k c : ℕ) (w : World (Program Leaf Value G))
      → settled (drive leaf_await c (g_of (suc k)) w) ≡ inner k c w
  unfolding drive drive_at g await_then
  drive-call k c w =
      rw
        (
          drive_at,
          suspends_on_new c w.program.next_frame (create false (g_of k) w)
              (create-IsNew (g_of k) w),
        )
        refl

  -- The outer coroutine waits for the inner one by the second of two new tokens.
  pub record IsInner (k c : ℕ) (w v : World (Program Leaf Value G)) : Type 0 where
    pub entered : Entered w.program.next_frame w.token_count (suc w.token_count) (g_of k) v
    pub waits :
        (p : Coroutine.Coroutine) × (v.program.frames c ≡ suspended_on (join p) (add_to k))
        × (p.coro_data ≡ w.program.next_frame)
        × (p.completion_token ≡ some (suc w.token_count))
    pub waiter_time : (v.token (suc w.token_count)).time ≡ pos 0
    pub waiter_handler : (v.token (suc w.token_count)).handler ≡ none
    pub waiter_coroutine : (v.token (suc w.token_count)).coro_data ≡ w.current
    pub waiter_eptr : (v.token (suc w.token_count)).eptr ≡ none
    pub same_now : v.now ≡ w.now
    pub same_tokens : (i : ℕ) → i < w.token_count → v.token i ≡ w.token i
    pub same_coroutines : (d : ℕ) → d < w.program.next_frame → v.coroutine d ≡ w.coroutine d
    pub same_frames :
        (d : ℕ) → d < w.program.next_frame → d ≢ c → v.program.frames d ≡ w.program.frames d
    pub two_tokens : v.token_count ≡ suc (suc w.token_count)
    pub one_frame : v.program.next_frame ≡ suc w.program.next_frame

  pub inner-IsInner :
      (k c : ℕ) (w : World (Program Leaf Value G))
      → c < w.program.next_frame
      → w.queue ≡ []
      → IsInner k c w (inner k c w)
  unfolding create push_coro set_coroutine set_frame start suspend add_completion_token new_token
      schedule_token
  inner-IsInner k c w h empty = record {
    entered = record {
      queued = ground (arith, empty);
      at_now =
          let late : ((inner k c w).token w.token_count).time ≡ w.now +ℤ pos 0 =
            ground (arith, (create-IsNew (g_of k) w).no_latency) in
          late ∙ add_zero w.now;
      no_handler = ground arith;
      resumes = ground arith;
      body = ground arith;
      shared_state = ground arith;
      one_waits = ground arith;
      token_allocated = ground arith;
      frame_allocated = ground arith;
    };
    waits = ((called k c w).0, ground arith, refl, refl);
    waiter_time = ground arith;
    waiter_handler = ground arith;
    waiter_coroutine = ground arith;
    waiter_eptr = ground arith;
    same_now = refl;
    same_tokens = λ i l. ground arith;
    same_coroutines = λ d l. ground arith;
    same_frames = λ d l n. ground arith;
    two_tokens = refl;
    one_frame = refl;
  }
