-- ===== src/Examples/Recursion.antt =====
-- Coroutines that call themselves: `g` of src/examples/process_rewrite.cpp, to any depth.
mod Inner
pub use Inner.{Entered, Left}
use libcxxdes.Examples.Recursion.Inner.{
  g_of, zero_add, IsInner, inner, called, add_to, return-Left, drive-call, inner-IsInner,
}
use libcxxdes.Base.{
  ℕ, zero, suc, ◌+◌, ◌*◌, ◌<◌, ◌≤◌, ◌≡◌, ◌≢◌, refl, sym, ap, ◌∙◌, true, false, none, some, [], ◌∷◌,
  update, ◌==◌, if◌then◌else◌, arith,
}
use libcxxdes.Base.Int.{ℤ, pos, ◌+ℤ◌, eq_of_parts, +ℤ_parts}
use libcxxdes.Core.World.{World, done, threw, set_coroutine, new_token, schedule_token, set_token}
use libcxxdes.Core.Queue.{PriorityQueue}
use libcxxdes.Core.Environment.{Step, idle, stepped, step, run, Run}
use libcxxdes.Core.Coroutine
use libcxxdes.Core.Coroutine.{
  new_coroutine, start, bind, suspend, await_resume_tag, add_completion_token, push_coro,
  return_value, do_return, schedule_completion, unmanage,
}
use libcxxdes.Core.Schedule.{schedule_all, schedule_from_now}
use libcxxdes.Core.Process.Sequence.{running, settled, step-resumes, run-stepped}
use libcxxdes.Examples.Values.{g}
use libcxxdes.Core.Process.{
  Body, co_return, co_await, Leaf, join, Value, number, Result, returned, raised, fresh,
  suspended_on, Program, leaf_await, leaf_value, resume_frame, leaf_ops, create, await_in, drive,
  set_frame, finish_return, end_frame, await_then, outside_try, call, Awaited, suspends, yields,
  map_first,
}

-- `0 + 1 + … + k`
abbrev pub sum_to : ℕ → ℕ
sum_to zero = 0
sum_to (suc k) = suc k + sum_to k

twice-sum_to : (k : ℕ) → sum_to k + sum_to k ≡ k * (k + 1)
twice-sum_to zero = refl
twice-sum_to (suc k) = omega (arith, twice-sum_to k)

module _ {G : Type 0} where
  fresh_resumes :
      (c : ℕ) (b : Body Leaf Value G) (v : World (Program Leaf Value G))
      → v.program.frames c ≡ fresh b
      → resume_frame leaf_await c v ≡ drive leaf_await c b v
  unfolding resume_frame
  fresh_resumes c b v e = rw (resume_frame, e) refl

  -- The waiter finds the value of the coroutine that it has awaited.
  join_resumes :
      (c t x : ℕ) (p : Coroutine.Coroutine) (k : Result Value → Body Leaf Value G)
      (v : World (Program Leaf Value G))
      → v.program.frames c ≡ suspended_on (join p) k
      → p.completion_token ≡ some t
      → (v.token t).eptr ≡ none
      → (v.coroutine p.coro_data).return_value ≡ some x
      → resume_frame leaf_await c v ≡ drive leaf_await c (k (returned (number x))) v
  unfolding resume_frame leaf_await leaf_value Coroutine.await_resume await_resume_tag
  join_resumes c t x p k v frame waits plain value =
      rw
        (
          resume_frame, frame, leaf_value, Coroutine.await_resume, await_resume_tag, waits, plain,
          value,
        )
        refl

  module _ (q : PriorityQueue) where
    enter-step :
        (k c tok ct : ℕ) (b : Body Leaf Value G) (w : World (Program Leaf Value G))
        → Entered c tok ct b w
        → step q (resume_frame leaf_await) w
          ≡ stepped (settled (drive leaf_await c b (running c w.now w)))
    enter-step k c tok ct b w s =
        step-resumes q (resume_frame leaf_await) c tok w.now w s.queued s.at_now s.no_handler
          s.resumes (omega arith)
        ∙ ap (λ v. stepped (settled v)) (fresh_resumes c b (running c w.now w) s.body)

  -- What the inner coroutine leaves as it was.
  module _ (k c tok ct x : ℕ) (w v : World (Program Leaf Value G))
      (s : Entered c tok ct (g_of (suc k)) w)
      (left : Left w.program.next_frame
        (suc w.token_count)
        x
        (inner k c (running c w.now w))
        v) where
    awaited : IsInner k c (running c w.now w) (inner k c (running c w.now w))
    awaited = inner-IsInner k c (running c w.now w) s.frame_allocated refl

    kept_now : v.now ≡ w.now
    kept_now = left.same_now ∙ awaited.same_now

    kept_token : (i : ℕ) → i < w.token_count → v.token i ≡ w.token i
    kept_token i l =
        left.same_tokens i (omega (arith, awaited.two_tokens)) (λ e. omega (arith, e))
        ∙ awaited.same_tokens i l

    kept_coroutine : (d : ℕ) → d < w.program.next_frame → v.coroutine d ≡ w.coroutine d
    kept_coroutine d l =
        left.same_coroutines d (omega (arith, awaited.one_frame)) (λ e. omega (arith, e))
        ∙ awaited.same_coroutines d l

    kept_frame :
        (d : ℕ)
        → d < w.program.next_frame
        → v.program.frames d ≡ (inner k c (running c w.now w)).program.frames d
    kept_frame d l = left.same_frames d (omega (arith, awaited.one_frame)) (λ e. omega (arith, e))

    outer-Left :
        (y : ℕ)
        → Left c ct y w (settled (drive leaf_await c (co_return (some y)) (running c v.now v)))
    outer-Left y =
        let same = kept_coroutine c s.frame_allocated in
        let last =
          return-Left c ct y (running c v.now v) (ap (λ d. d.unique) same ∙ s.shared_state)
            (ap (λ d. d.completion_tokens) same ∙ s.one_waits) refl in
        let kept = kept_token ct s.token_allocated in
        record {
          queued = last.queued;
          same_now = last.same_now ∙ kept_now;
          value = last.value;
          ct_time =
              last.ct_time
              ∙ ap (λ t. t.time +ℤ v.now) kept
              ∙ ap (λ n. (w.token ct).time +ℤ n) kept_now;
          ct_handler = last.ct_handler ∙ ap (λ t. t.handler) kept;
          ct_coroutine = last.ct_coroutine ∙ ap (λ t. t.coro_data) kept;
          ct_eptr = last.ct_eptr ∙ ap (λ t. t.eptr) kept;
          same_tokens = λ i l n.
              last.same_tokens i (omega (arith, left.more_tokens, awaited.two_tokens)) n
              ∙ kept_token i l;
          same_coroutines = λ d l n.
              last.same_coroutines d (omega (arith, left.more_frames, awaited.one_frame)) n
              ∙ kept_coroutine d l;
          same_frames = λ d l n.
              last.same_frames d (omega (arith, left.more_frames, awaited.one_frame)) n
              ∙ kept_frame d l
              ∙ awaited.same_frames d l n;
          more_tokens = omega (arith, last.more_tokens, left.more_tokens, awaited.two_tokens);
          more_frames = omega (arith, last.more_frames, left.more_frames, awaited.one_frame);
        }

    leave-step :
        (q : PriorityQueue)
        → step q (resume_frame leaf_await) v
          ≡ stepped
              (settled (drive leaf_await c (co_return (some (suc k + x))) (running c v.now v)))
    unfolding outside_try
    leave-step q =
        let (p, frame, state, token) = awaited.waits in
        step-resumes q (resume_frame leaf_await) c (suc w.token_count) v.now v left.queued
          (left.ct_time
            ∙ ap (λ t. t +ℤ (inner k c (running c w.now w)).now) awaited.waiter_time
            ∙ zero_add _
            ∙ sym left.same_now)
          (left.ct_handler ∙ awaited.waiter_handler) (left.ct_coroutine ∙ awaited.waiter_coroutine)
          (omega arith)
        ∙ ap (λ u. stepped (settled u))
            (join_resumes c (suc w.token_count) x p (add_to k) (running c v.now v)
              (kept_frame c s.frame_allocated ∙ frame) token (left.ct_eptr ∙ awaited.waiter_eptr)
              (ap (λ n. (v.coroutine n).return_value) state ∙ left.value))

  -- Nothing of it depends on the queue, or on which coroutine runs.
  Left-running :
      (c ct x : ℕ) (w v : World (Program Leaf Value G))
      → Left c ct x (running c w.now w) v
      → Left c ct x w v
  Left-running c ct x w v s = record {
    queued = s.queued;
    same_now = s.same_now;
    value = s.value;
    ct_time = s.ct_time;
    ct_handler = s.ct_handler;
    ct_coroutine = s.ct_coroutine;
    ct_eptr = s.ct_eptr;
    same_tokens = s.same_tokens;
    same_coroutines = s.same_coroutines;
    same_frames = s.same_frames;
    more_tokens = s.more_tokens;
    more_frames = s.more_frames;
  }

  returns :
      (q : PriorityQueue) (k c tok ct : ℕ) (w : World (Program Leaf Value G))
      → Entered c tok ct (g_of k) w
      → (v : World (Program Leaf Value G)) × ((fuel : ℕ)
          → run q (resume_frame leaf_await) (k + k + 1 + fuel) w
            ≡ run q (resume_frame leaf_await) fuel v)
        × Left c ct (sum_to k) w v
  unfolding g
  returns q zero c tok ct w s = (
    settled (drive leaf_await c (co_return (some 0)) (running c w.now w)),
    λ fuel.
        ap (λ n. run q (resume_frame leaf_await) n w) (omega arith)
        ∙ run-stepped q (resume_frame leaf_await) fuel w _ (enter-step q 0 c tok ct _ w s),
    Left-running c ct 0 w _
        (return-Left c ct 0 (running c w.now w) s.shared_state s.one_waits refl),
  )
  returns q (suc k) c tok ct w s =
      let awaited = inner-IsInner k c (running c w.now w) s.frame_allocated refl in
      let (v, ran, left) =
        returns q k w.program.next_frame w.token_count (suc w.token_count) _ awaited.entered in
      (
        settled (drive leaf_await c (co_return (some (suc k + sum_to k))) (running c v.now v)),
        λ fuel.
            ap (λ n. run q (resume_frame leaf_await) n w) (omega arith)
            ∙ run-stepped q (resume_frame leaf_await) (k + k + 1 + suc fuel) w _ (
                enter-step q k c tok ct _ w s
                ∙ ap (λ u. stepped u) (drive-call k c (running c w.now w)))
            ∙ ran (suc fuel)
            ∙ run-stepped q (resume_frame leaf_await) fuel v _
                (leave-step k c tok ct (sum_to k) w v s left q),
        outer-Left k c tok ct (sum_to k) w v s left (suc k + sum_to k),
      )

  -- The recursive coroutine `g` of process_rewrite.cpp, of any depth `k`: a shared coroutine with
  -- this body is to start now, as the only event, and one token waits for its end. Then after `2 *
  -- k + 1` steps of `run`, whatever the priority queue, it has returned `k * (k + 1) / 2`. The
  -- waiting token is the only event, its latency counted from now. The clock has not moved, and
  -- the other tokens, coroutines and frames that were there are as they were.
  pub g-returns :
      (q : PriorityQueue) (fuel k c tok ct : ℕ) (w : World (Program Leaf Value G))
      → Entered c tok ct (g join k) w
      → (v : World (Program Leaf Value G)) × (x : ℕ) × (run q
            (resume_frame leaf_await)
            (k + k + 1 + fuel)
            w
          ≡ run q (resume_frame leaf_await) fuel v)
        × Left c ct x w v
        × (x + x ≡ k * (k + 1))
  g-returns q fuel k c tok ct w s =
      let (v, ran, left) = returns q k c tok ct w s in (v, sum_to k, ran fuel, left, twice-sum_to k)
