-- ===== src/Core/Process/Sequence.antt =====
-- include/cxxdes/core/impl/sequential.ipp on timeouts, from the binding of the coroutine to the
-- end of `run`: timeout.ipp, coroutine.ipp and environment.ipp together.
use libcxxdes.Base.{
  ℕ, zero, suc, ◌+◌, ◌<◌, ◌≡◌, refl, sym, ap, ◌∙◌, Bool, true, false, Option, none, some, List, [],
  ◌∷◌, map, length, count, arith, if◌then◌else◌, ◌==◌, update,
}
use libcxxdes.Base.Int.{ℤ, pos, ◌+ℤ◌, ◌≤ℤ◌, max_ℤ, eq_of_parts, +ℤ_parts}
use libcxxdes.Core.Token.{Token, inherit, resolve}
use libcxxdes.Core.World.{World, comp_of}
use libcxxdes.Core.Queue.{PriorityQueue}
use libcxxdes.Core.Environment.{Step, idle, stepped, process, advance, step, Run, finished, run}
use libcxxdes.Core.Environment.Clock.{step-some}
use libcxxdes.Core.Timeout
use libcxxdes.Core.Timeout.{ticks, timeout}
use libcxxdes.Core.Coroutine.{do_return, schedule_completion, start}
use libcxxdes.Core.Process.Frames.{
  Result, returned, raised, Body, Frame, fresh, suspended_on, gone, Program,
}
use libcxxdes.Core.Process.Drive.{
  set_frame, finish_return, end_frame, await_in, drive, resume_frame,
}
use libcxxdes.Core.Process.Awaits.{
  Leaf, sleep, Value, nothing, leaf_await, leaf_value, leaf_ops, leaf_ready, leaf_suspend,
}
use libcxxdes.Core.Process.Programs.{await_then, outside_try, sequential_body}
mod Asleep
pub use Asleep.{pop-single, sleep_of, total, IsOver, running, settled, step-resumes}
use libcxxdes.Core.Process.Sequence.Asleep.{
  sleep_of, total, IsAsleep, IsOver, running, settled, step-single, drive-IsAsleep, ends,
}

module _ {G : Type 0} where
  step-empty :
      (q : PriorityQueue) (resume : ℕ → World (Program Leaf Value G) → World (Program Leaf Value G))
      (w : World (Program Leaf Value G))
      → w.queue ≡ []
      → step q resume w ≡ idle w
  unfolding step
  step-empty q resume w e = ground (arith, ap (q.pop (comp_of w)) e, q.pop-nil (comp_of w))

  pub run-stepped :
      (q : PriorityQueue) (resume : ℕ → World (Program Leaf Value G) → World (Program Leaf Value G))
      (fuel : ℕ) (w u : World (Program Leaf Value G))
      → step q resume w ≡ stepped u
      → run q resume (suc fuel) w ≡ run q resume fuel u
  unfolding run
  run-stepped q resume fuel w u e = rw (run, e)

  run-empty :
      (q : PriorityQueue) (resume : ℕ → World (Program Leaf Value G) → World (Program Leaf Value G))
      (fuel : ℕ) (w : World (Program Leaf Value G))
      → w.queue ≡ []
      → run q resume (suc fuel) w ≡ finished w
  unfolding run
  run-empty q resume fuel w e = rw (run, step-empty q resume w e)

  IsAsleep-ends :
      (q : PriorityQueue) (fuel : ℕ) (c tok : ℕ) (t : ℤ) (ds : List ℕ)
      (w : World (Program Leaf Value G))
      → IsAsleep c tok t ds w
      → length ds + 1 < fuel
      → (v : World (Program Leaf Value G)) × (run q (resume_frame leaf_await) fuel w ≡ finished v)
        × IsOver c (t +ℤ pos (total ds)) v
  IsAsleep-ends q zero c tok t ds w s h = absurd (omega arith)
  IsAsleep-ends q (suc zero) c tok t ds w s h = absurd (omega arith)
  IsAsleep-ends q (suc (suc fuel)) c tok t [] w s h =
      let over = ends c (running c t w) s.shared_state s.nobody_waits refl in
      let same : t ≡ t +ℤ pos 0 = eq_of_parts _ _ (omega (arith, +ℤ_parts t (pos 0))) in
      (
        settled (drive leaf_await c (sequential_body []) (running c t w)),
        run-stepped q (resume_frame leaf_await) (suc fuel) w _ (step-single q c tok t [] w s)
            ∙ run-empty q (resume_frame leaf_await) fuel _ over.no_event,
        record {
          no_event = over.no_event;
          is_complete = over.is_complete;
          clock = over.clock ∙ same;
        },
      )
  IsAsleep-ends q (suc (suc fuel)) c tok t (d ∷ ds) w s h =
      let (v, ran, over) =
        IsAsleep-ends q (suc fuel) c w.token_count (t +ℤ pos d) ds _
          (drive-IsAsleep c tok d t ds w s) (omega arith) in
      let same : t +ℤ pos d +ℤ pos (total ds) ≡ t +ℤ pos (d + total ds) = eq_of_parts _ _ (
        omega (
          arith,
          +ℤ_parts t (pos d),
          +ℤ_parts (t +ℤ pos d) (pos (total ds)),
          +ℤ_parts t (pos (d + total ds)),
        )) in
      (
        v,
        run-stepped q (resume_frame leaf_await) (suc fuel) w _ (step-single q c tok t (d ∷ ds) w s)
            ∙ ran,
        record {
          no_event = over.no_event;
          is_complete = over.is_complete;
          clock = over.clock ∙ same;
        },
      )

  start-IsAsleep :
      (c : ℕ) (p : ℤ) (ds : List ℕ) (w : World (Program Leaf Value G))
      → w.queue ≡ []
      → (w.coroutine c).unique ≡ false
      → (w.coroutine c).completion_tokens ≡ []
      → w.program.frames c ≡ fresh (sequential_body (map sleep_of ds))
      → pos 0 ≤ℤ (w.coroutine c).latency
      → IsAsleep c w.token_count (w.now +ℤ (w.coroutine c).latency) ds (start c p w)
  unfolding start resume_frame
  start-IsAsleep c p ds w empty shared nobody body late = record {
    queued = ground arith;
    at_time = ground arith;
    no_handler = ground arith;
    resumes = ground arith;
    not_past = omega (arith, +ℤ_parts w.now (w.coroutine c).latency);
    shared_state = ground arith;
    nobody_waits = ground arith;
    goes_on = λ v e.
        let same : v.program.frames c ≡ fresh (sequential_body (map sleep_of ds)) = e ∙ body in
        rw (resume_frame, same);
  }

  -- A shared coroutine with the body of `sequential` over timeouts, of natural numbers of ticks,
  -- that nobody awaits and whose latency is not negative, is started on an empty queue. With fuel
  -- beyond the number of timeouts plus 1, `run` ends, whatever the priority queue: no event is
  -- left, the coroutine is complete, and the clock has moved by the latency and the sum of the
  -- timeouts.
  pub sequential_delays-end :
      (q : PriorityQueue) (fuel : ℕ) (c : ℕ) (p : ℤ) (ds : List ℕ)
      (w : World (Program Leaf Value G))
      → w.queue ≡ []
      → (w.coroutine c).unique ≡ false
      → (w.coroutine c).completion_tokens ≡ []
      → w.program.frames c ≡ fresh (sequential_body (map sleep_of ds))
      → pos 0 ≤ℤ (w.coroutine c).latency
      → length ds + 1 < fuel
      → (v : World (Program Leaf Value G)) × (run q (resume_frame leaf_await) fuel (start c p w)
          ≡ finished v)
        × IsOver c (w.now +ℤ (w.coroutine c).latency +ℤ pos (total ds)) v
  sequential_delays-end q fuel c p ds w empty shared nobody body late h =
      IsAsleep-ends q fuel c w.token_count _ ds (start c p w)
        (start-IsAsleep c p ds w empty shared nobody body late) h
