-- ===== src/Core/Schedule.antt =====
-- The loop that `schedule_completion_` of include/cxxdes/core/impl/environment.ipp and `wake` of
-- include/cxxdes/sync/event.hpp share: each token's time, a latency until then, is counted from
-- now.
use libcxxdes.Base.{ℕ, ◌+◌, ◌≡◌, refl, List, [], ◌∷◌, count, In, Distinct, arith, dec_lt}
use libcxxdes.Base.Int.{ℤ, pos, ◌+ℤ◌, ◌≤ℤ◌, +ℤ_parts}
use libcxxdes.Core.Token.{Token}
use libcxxdes.Core.World.{World, schedule_token, set_token}
use libcxxdes.Core.Environment.Clock.{IsCausal}

abbrev pub delayed : ℤ → Token → Token
delayed now t = record t { time = t.time +ℤ now }

module _ {S : Type 0} where
  -- `tkn->time += env->now(); env->schedule_token(tkn);`
  unfoldable pub schedule_from_now : ℕ → World S → World S
  unfolding schedule_token set_token
  schedule_from_now t w = schedule_token t (set_token t (delayed w.now (w.token t)) w)

  unfoldable pub schedule_all : List ℕ → World S → World S
  unfolding schedule_from_now
  schedule_all [] w = w
  schedule_all (t ∷ ts) w = schedule_all ts (schedule_from_now t w)

  -- The fields that scheduling leaves alone.
  pub record SameObjects (w v : World S) : Type 0 where
    pub same_id : v.id ≡ w.id
    pub same_now : v.now ≡ w.now
    pub same_coroutines : v.coroutines ≡ w.coroutines
    pub same_current : v.current ≡ w.current
    pub same_coroutine : v.coroutine ≡ w.coroutine
    pub same_handler : v.handler ≡ w.handler
    pub same_count : v.token_count ≡ w.token_count
    pub same_program : v.program ≡ w.program

  pub schedule_all-SameObjects : (ts : List ℕ) (w : World S) → SameObjects w (schedule_all ts w)
  unfolding schedule_all
  schedule_all-SameObjects [] w = record {
    same_id = refl;
    same_now = refl;
    same_coroutines = refl;
    same_current = refl;
    same_coroutine = refl;
    same_handler = refl;
    same_count = refl;
    same_program = refl;
  }
  schedule_all-SameObjects (t ∷ ts) w =
      let rest = schedule_all-SameObjects ts (schedule_from_now t w) in
      record {
        same_id = rest.same_id;
        same_now = rest.same_now;
        same_coroutines = rest.same_coroutines;
        same_current = rest.same_current;
        same_coroutine = rest.same_coroutine;
        same_handler = rest.same_handler;
        same_count = rest.same_count;
        same_program = rest.same_program;
      }

  -- The queue gains exactly the tokens of the list.
  pub schedule_all-queue :
      (ts : List ℕ) (w : World S) (i : ℕ)
      → count i (schedule_all ts w).queue ≡ count i ts + count i w.queue
  unfolding schedule_all
  schedule_all-queue [] w i = omega arith
  schedule_all-queue (t ∷ ts) w i = omega (arith, schedule_all-queue ts (schedule_from_now t w) i)

  -- A token outside the list stays as it is.
  pub schedule_all-other :
      (ts : List ℕ) (w : World S) (i : ℕ) → count i ts ≡ 0 → (schedule_all ts w).token i ≡ w.token i
  unfolding schedule_all
  schedule_all-other [] w i h = refl
  schedule_all-other (t ∷ ts) w i h =
      ground (arith, schedule_all-other ts (schedule_from_now t w) i)

  -- A token that stands once in the list is delayed by the current time, once.
  pub schedule_all-token :
      (ts : List ℕ) (w : World S) (i : ℕ)
      → count i ts ≡ 1
      → (schedule_all ts w).token i ≡ delayed w.now (w.token i)
  unfolding schedule_all
  schedule_all-token [] w i h = absurd (omega arith)
  schedule_all-token (t ∷ ts) w i h = ground (
    arith,
    schedule_all-other ts (schedule_from_now t w) i,
    schedule_all-token ts (schedule_from_now t w) i,
  )

  -- With latencies that are not negative, the new events do not lie in the past.
  pub schedule_all-IsCausal :
      (ts : List ℕ) (w : World S)
      → IsCausal w
      → Distinct ts
      → ((i : ℕ) → In i ts → pos 0 ≤ℤ (w.token i).time)
      → ((i : ℕ) → In i ts → count i w.queue ≡ 0)
      → IsCausal (schedule_all ts w)
  schedule_all-IsCausal ts w causal once late apart i m = elim (dec_lt 0 (count i ts)) [
    | yes listed ↦
        rw (same_now, schedule_all-token ts w i (omega (arith, once i)))
          (omega (arith, late i listed, +ℤ_parts (w.token i).time w.now))
    | no other ↦
        rw (same_now, schedule_all-other ts w i (omega arith))
          (causal i (omega (arith, schedule_all-queue ts w i)))
  ]
    where
      open (schedule_all-SameObjects ts w) use {same_now}
