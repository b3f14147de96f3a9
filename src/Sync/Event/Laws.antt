-- ===== src/Sync/Event/Laws.antt =====
-- include/cxxdes/sync/event.hpp: who is woken, when, and how often.
use libcxxdes.Base.{
  ℕ, ◌+◌, ◌≡◌, refl, ◌<◌, Option, [], ◌∷◌, ◌++◌, count, count-append, In, Distinct, arith,
}
use libcxxdes.Base.Int.{pos, ◌≤ℤ◌}
use libcxxdes.Core.World.{World}
use libcxxdes.Core.Environment.Clock.{IsCausal}
use libcxxdes.Core.Schedule.{
  delayed, schedule_all-SameObjects, schedule_all-queue, schedule_all-token, schedule_all-other,
  schedule_all-IsCausal,
}
use libcxxdes.Sync.Event.Defs.{Event, Wait, await_suspend, wake}

module _ {S : Type 0} where
  -- The waiters of an event in a world: tokens that have been allocated, each once, none of them in
  -- the queue, with latencies that are not negative.
  pub record IsEvent (evt : Event) (w : World S) : Type 0 where
    pub distinct : Distinct evt.tokens
    pub allocated : (i : ℕ) → In i evt.tokens → i < w.token_count
    pub queue_allocated : (i : ℕ) → In i w.queue → i < w.token_count
    pub apart : (i : ℕ) → In i evt.tokens → count i w.queue ≡ 0
    pub latencies : (i : ℕ) → In i evt.tokens → pos 0 ≤ℤ (w.token i).time

  -- A wait with a latency that is not negative keeps the waiters of an event distinct, allocated,
  -- out of the queue and of latencies that are not negative; it adds one new token behind the
  -- others, and schedules nothing.
  pub await_suspend-IsEvent :
      (evt : Event) (a : Wait) (caller : Option ℕ) (w : World S)
      → IsEvent evt w
      → pos 0 ≤ℤ a.latency
      → let (evt', _, v) = await_suspend evt a caller w in
        IsEvent evt' v × (evt'.tokens ≡ evt.tokens ++ w.token_count ∷ []) × (v.queue ≡ w.queue)
  unfolding await_suspend
  await_suspend-IsEvent evt a caller w ok late = (
    record {
      distinct = λ i. ground (arith, snoc i, ok.distinct i, ok.allocated i);
      allocated = λ i m. ground (arith, snoc i, ok.allocated i);
      queue_allocated = λ i m. ground (arith, ok.queue_allocated i);
      apart = λ i m. ground (arith, snoc i, ok.apart i, ok.queue_allocated i);
      latencies = λ i m. ground (arith, snoc i, ok.latencies i, ok.allocated i);
    },
    refl,
    refl,
  )
    where
      snoc :
          (i : ℕ)
          → count i (evt.tokens ++ w.token_count ∷ [])
            ≡ count i evt.tokens + count i (w.token_count ∷ [])
      snoc i = count-append i evt.tokens (w.token_count ∷ [])

  -- A wake puts every waiter, and nothing else, into the queue, at the present time plus its
  -- latency, and leaves the event without waiters. Other tokens and the clock stay; no event lands
  -- in the past.
  pub record IsWoken (evt : Event) (w : World S) (evt' : Event) (v : World S) : Type 0 where
    pub nobody : evt'.tokens ≡ []
    pub queued : (i : ℕ) → count i v.queue ≡ count i evt.tokens + count i w.queue
    pub resumes : (i : ℕ) → In i evt.tokens → v.token i ≡ delayed w.now (w.token i)
    pub other_tokens : (i : ℕ) → count i evt.tokens ≡ 0 → v.token i ≡ w.token i
    pub clock : v.now ≡ w.now
    pub causal : IsCausal w → IsCausal v

  -- Where the waiters of an event are distinct, allocated, not in the queue and of latencies that
  -- are not negative, a wake puts each of them, and nothing else, into the queue once, at the
  -- present time plus its latency, and leaves the event without waiters. Other tokens and the
  -- clock stay, and if no event was past, none is.
  pub wake-IsWoken :
      (evt : Event) (w : World S) → IsEvent evt w → IsWoken evt w (wake evt w).0 (wake evt w).1
  unfolding wake
  wake-IsWoken evt w ok = record {
    nobody = refl;
    queued = schedule_all-queue evt.tokens w;
    resumes = λ i m. schedule_all-token evt.tokens w i (omega (arith, ok.distinct i));
    other_tokens = schedule_all-other evt.tokens w;
    clock = (schedule_all-SameObjects evt.tokens w).same_now;
    causal = λ c. schedule_all-IsCausal evt.tokens w c ok.distinct ok.latencies ok.apart;
  }

  -- A wake does not persist: a second one right after it changes nothing.
  pub wake-twice :
      (evt : Event) (w : World S) → let (evt', v) = wake evt w in wake evt' v ≡ (evt', v)
  unfolding wake
  wake-twice evt w = refl
