-- ===== src/Core/Timeout/Schedule.antt =====
-- include/cxxdes/core/impl/timeout.ipp: when a timeout resumes its coroutine.
use libcxxdes.Base.{ℕ, ◌≡◌, ◌≢◌, refl, true, false, Option, ◌∷◌, arith}
use libcxxdes.Base.Int.{ℤ, pos, ◌≤ℤ◌, ◌<ℤ◌, +ℤ_parts, eq_of_parts}
use libcxxdes.Core.World.{World}
use libcxxdes.Core.Environment.Clock.{IsCausal}
use libcxxdes.Core.Coroutine.Binding.{IsAllocated}
use libcxxdes.Core.Timeout.Defs.{
  Amount, ticks, Timeout, timeout, instant, yield, lazy_timeout, time_of, await_bind, await_ready,
  resume_time, await_suspend, lazy_bind, lazy_resume,
}

module _ {S : Type 0} where
  -- What a suspension does: one event for the caller joins the queue, at the time of the timeout
  -- and with its priority; the clock and the other tokens stay.
  pub record IsScheduled (a : Timeout) (caller : Option ℕ) (w v : World S) : Type 0 where
    pub queued : v.queue ≡ w.token_count ∷ w.queue
    pub resumes : (v.token w.token_count).coro_data ≡ caller
    pub at_time : (v.token w.token_count).time ≡ resume_time a w
    pub priority : (v.token w.token_count).priority ≡ a.priority
    pub other_tokens : (i : ℕ) → i ≢ w.token_count → v.token i ≡ w.token i
    pub clock : v.now ≡ w.now

  pub await_suspend-IsScheduled :
      (a : Timeout) (caller : Option ℕ) (w : World S)
      → IsScheduled a caller w (await_suspend a caller w).1
  unfolding await_suspend
  await_suspend-IsScheduled a caller w = record {
    queued = refl;
    resumes = ground arith;
    at_time = ground arith;
    priority = ground arith;
    other_tokens = λ i h. ground arith;
    clock = refl;
  }

  -- A timeout is to be suspended on at or after the present: a relative one with an amount that is
  -- not negative, an absolute one whenever it is not ready.
  pub resume_time-later :
      (a : Timeout) (w : World S)
      → await_ready a w ≡ false
      → (a.relative ≡ true → pos 0 ≤ℤ time_of a.amount w)
      → w.now ≤ℤ resume_time a w
  unfolding await_ready resume_time
  resume_time-later a w waits late = ground (arith, +ℤ_parts w.now (time_of a.amount w))

  -- If no event of the queue is past, all its tokens are allocated, the timeout is not ready and,
  -- if relative, its amount is not negative, then both still hold after the suspension.
  pub await_suspend-IsCausal :
      (a : Timeout) (caller : Option ℕ) (w : World S)
      → IsCausal w
      → IsAllocated w
      → await_ready a w ≡ false
      → (a.relative ≡ true → pos 0 ≤ℤ time_of a.amount w)
      → IsCausal (await_suspend a caller w).1 × IsAllocated (await_suspend a caller w).1
  unfolding await_suspend
  await_suspend-IsCausal a caller w causal allocated waits late = (
    λ i m. ground (arith, causal i, allocated i, resume_time-later a w waits late),
    λ i m. ground (arith, allocated i),
  )

  -- An absolute timeout is ready exactly when its time has come.
  pub instant-ready :
      (t p : ℤ) (w : World S)
      → ((await_ready (instant (ticks t) p) w ≡ true) → t ≤ℤ w.now)
        × ((await_ready (instant (ticks t) p) w ≡ false) → w.now <ℤ t)
  unfolding await_ready instant time_of
  instant-ready t p w = (λ e. ground arith, λ e. ground arith)

  -- A lazy timeout that is awaited in the world `w` yields a timeout that resumes, whatever the
  -- world `v` it is awaited in, at the time at which an ordinary relative timeout awaited in `w`
  -- resumes.
  pub lazy-deadline :
      (a : Amount) (p : ℤ) (w v : World S)
      → resume_time (lazy_resume (lazy_bind (lazy_timeout a p) w)) v ≡ resume_time (timeout a p) w
  unfolding lazy_resume lazy_bind lazy_timeout resume_time timeout instant time_of
  lazy-deadline a p w v = refl

  -- A `yield` that is bound with a priority is never ready, resumes at the present time, and has
  -- that priority.
  pub yield-now :
      (w : World S) (p : ℤ)
      → (await_ready (await_bind yield p) w ≡ false)
        × (resume_time (await_bind yield p) w ≡ w.now)
        × ((await_bind yield p).priority ≡ p)
  unfolding await_ready await_bind yield resume_time timeout time_of
  yield-now w p = (refl, eq_of_parts _ _ (omega (arith, +ℤ_parts w.now (pos 0))), refl)
