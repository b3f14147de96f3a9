-- ===== src/Core/Process/Sequence/Asleep.antt =====
-- A coroutine that awaits timeouts one behind the other, between its resumptions:
-- include/cxxdes/core/impl/sequential.ipp with timeout.ipp and environment.ipp.
use libcxxdes.Base.{
  ℕ, ◌+◌, ◌≡◌, refl, ap, ◌∙◌, Bool, true, false, none, some, List, [], ◌∷◌, map, count, arith,
}
use libcxxdes.Base.Int.{ℤ, pos, ◌+ℤ◌, ◌≤ℤ◌, max_ℤ, eq_of_parts, +ℤ_parts}
use libcxxdes.Core.Token.{inherit}
use libcxxdes.Core.World.{World, comp_of}
use libcxxdes.Core.Queue.{PriorityQueue}
use libcxxdes.Core.Environment.{stepped, process, advance, step}
use libcxxdes.Core.Environment.Clock.{step-some}
use libcxxdes.Core.Timeout
use libcxxdes.Core.Timeout.{ticks, timeout}
use libcxxdes.Core.Coroutine.{do_return, schedule_completion}
use libcxxdes.Core.Process.Frames.{Result, returned, Body, suspended_on, Program}
use libcxxdes.Core.Process.Drive.{finish_return, end_frame, drive, resume_frame}
use libcxxdes.Core.Process.Awaits.{
  Leaf, sleep, Value, nothing, leaf_await, leaf_value, leaf_ops, leaf_ready, leaf_suspend,
}
use libcxxdes.Core.Process.Programs.{outside_try, sequential_body}

-- `timeout(d)`
abbrev pub sleep_of : ℕ → Leaf
sleep_of d = sleep (timeout (ticks (pos d)) inherit)

abbrev pub total : List ℕ → ℕ
total [] = 0
total (d ∷ ds) = d + total ds

-- The only element of a queue is popped, and leaves it empty.
pub pop-single :
    (q : PriorityQueue) (comp : ℕ → ℕ → Bool) (x : ℕ) → q.pop comp (x ∷ []) ≡ some (x, [])
pop-single q comp x =
    let (t, rest, e) = q.pop-cons comp x [] in
    e ∙ ap some (only t rest (q.pop-count comp (x ∷ []) t rest e))
  where
    empty : (rest : List ℕ) → ((i : ℕ) → count i rest ≡ 0) → rest ≡ []
    empty [] h = refl
    empty (y ∷ ys) h = absurd (ground (arith, h y))

    only :
        (t : ℕ) (rest : List ℕ)
        → ((i : ℕ) → count i (t ∷ rest) ≡ count i (x ∷ []))
        → ◌≡◌ {A = ℕ × List ℕ} (t, rest) (x, [])
    only t rest h =
        let same : t ≡ x = ground (arith, h t) in
        let none_left : rest ≡ [] = empty rest (λ i. ground (arith, h i)) in rw (same, none_left)

module _ {C V G : Type 0} where
  abbrev pub running : ℕ → ℤ → World (Program C V G) → World (Program C V G)
  running c t w = record w { queue = []; now = t; current = some c }

  abbrev pub settled : World (Program C V G) → World (Program C V G)
  settled w = record w { current = none }

  process-resumes :
      (q : PriorityQueue) (resume : ℕ → World (Program C V G) → World (Program C V G)) (tok c : ℕ)
      (w : World (Program C V G))
      → (w.token tok).handler ≡ none
      → (w.token tok).coro_data ≡ some c
      → process q resume tok w ≡ stepped (settled (resume c (record w { current = some c })))
  unfolding process
  process-resumes q resume tok c w h k = rw (process, h, k)

  -- The only event of the queue resumes its coroutine.
  pub step-resumes :
      (q : PriorityQueue) (resume : ℕ → World (Program C V G) → World (Program C V G)) (c tok : ℕ)
      (t : ℤ) (w : World (Program C V G))
      → w.queue ≡ tok ∷ []
      → (w.token tok).time ≡ t
      → (w.token tok).handler ≡ none
      → (w.token tok).coro_data ≡ some c
      → w.now ≤ℤ t
      → step q resume w ≡ stepped (settled (resume c (running c t w)))
  unfolding advance
  step-resumes q resume c tok t w queued at_time no_handler resumes not_past =
      let clock : max_ℤ (w.token tok).time w.now ≡ t =
        ground (arith, at_time, not_past, eq_of_parts t w.now) in
      step-some q resume w tok [] (ap (q.pop (comp_of w)) queued ∙ pop-single q (comp_of w) tok)
      ∙ ap (λ n. process q resume tok (record w { queue = []; now = n })) clock
      ∙ process-resumes q resume tok c (record w { queue = []; now = t }) no_handler resumes

module _ {G : Type 0} where
  -- The coroutine `c` is the only one with an event, at `t`, and goes on with the timeouts `ds`
  -- then.
  pub record IsAsleep (c tok : ℕ) (t : ℤ) (ds : List ℕ) (w : World (Program Leaf Value G))
      : Type 0 where
    pub queued : w.queue ≡ tok ∷ []
    pub at_time : (w.token tok).time ≡ t
    pub no_handler : (w.token tok).handler ≡ none
    pub resumes : (w.token tok).coro_data ≡ some c
    pub not_past : w.now ≤ℤ t
    pub shared_state : (w.coroutine c).unique ≡ false
    pub nobody_waits : (w.coroutine c).completion_tokens ≡ []
    pub goes_on :
        (v : World (Program Leaf Value G))
        → v.program.frames c ≡ w.program.frames c
        → resume_frame leaf_await c v ≡ drive leaf_await c (sequential_body (map sleep_of ds)) v

  pub step-single :
      (q : PriorityQueue) (c tok : ℕ) (t : ℤ) (ds : List ℕ) (w : World (Program Leaf Value G))
      → IsAsleep c tok t ds w
      → step q (resume_frame leaf_await) w
        ≡ stepped (settled (drive leaf_await c (sequential_body (map sleep_of ds)) (running c t w)))
  step-single q c tok t ds w s =
      step-resumes q (resume_frame leaf_await) c tok t w s.queued s.at_time s.no_handler s.resumes
        s.not_past
      ∙ ap (λ v. stepped (settled v)) (s.goes_on (running c t w) refl)

  frame_resumes :
      (c : ℕ) (b : Timeout.Timeout) (k : Result Value → Body Leaf Value G)
      (v : World (Program Leaf Value G))
      → v.program.frames c ≡ suspended_on (sleep b) k
      → resume_frame leaf_await c v ≡ drive leaf_await c (k (returned nothing)) v
  unfolding resume_frame leaf_await leaf_value
  frame_resumes c b k v e = rw (resume_frame, e)

  -- Behind a timeout `d` the coroutine is asleep again.
  pub drive-IsAsleep :
      (c tok d : ℕ) (t : ℤ) (ds : List ℕ) (w : World (Program Leaf Value G))
      → IsAsleep c tok t (d ∷ ds) w
      → IsAsleep c w.token_count
          (t +ℤ pos d)
          ds
          (settled (drive leaf_await c (sequential_body (map sleep_of (d ∷ ds))) (running c t w)))
  unfolding drive sequential_body leaf_await leaf_ops leaf_ready leaf_suspend Timeout.await_suspend
      Timeout.await_ready Timeout.await_bind timeout Timeout.resume_time
  drive-IsAsleep c tok d t ds w s = record {
    queued = refl;
    at_time = ground arith;
    no_handler = ground arith;
    resumes = ground arith;
    not_past = omega (arith, +ℤ_parts t (pos d));
    shared_state = s.shared_state;
    nobody_waits = s.nobody_waits;
    goes_on = λ v e.
        frame_resumes c
          (record (Timeout.await_bind (timeout (ticks (pos d)) inherit) (w.coroutine c).priority) {
            tkn = some w.token_count;
          })
          (outside_try (λ u. sequential_body (map sleep_of ds))) v (e ∙ ground arith);
  }

  -- Behind the last timeout the coroutine ends.
  pub record IsOver (c : ℕ) (t : ℤ) (v : World (Program Leaf Value G)) : Type 0 where
    pub no_event : v.queue ≡ []
    pub is_complete : (v.coroutine c).complete ≡ true
    pub clock : v.now ≡ t

  pub ends :
      (c : ℕ) (w : World (Program Leaf Value G))
      → (w.coroutine c).unique ≡ false
      → (w.coroutine c).completion_tokens ≡ []
      → w.queue ≡ []
      → IsOver c w.now (settled (drive leaf_await c (sequential_body []) w))
  unfolding drive sequential_body finish_return end_frame do_return schedule_completion
  ends c w shared nobody empty = record {
    no_event = ground arith;
    is_complete = ground arith;
    clock = ground arith;
  }
