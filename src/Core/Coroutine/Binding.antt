-- ===== src/Core/Coroutine/Binding.antt =====
-- include/cxxdes/core/impl/environment.ipp, `coroutine_data::bind_`.
use libcxxdes.Base.{
  ℕ, ◌≡◌, ◌≢◌, refl, ◌<◌, true, none, some, Option-cases, inl, inr, List, ◌∷◌, In, arith,
}
use libcxxdes.Base.Int.{ℤ, pos, ◌+ℤ◌, ◌≤ℤ◌, +ℤ_parts}
use libcxxdes.Core.Token.{bound_elsewhere, resolve}
use libcxxdes.Core.World.{World, done, threw}
use libcxxdes.Core.Environment.Clock.{IsCausal}
use libcxxdes.Core.Coroutine.Data.{contains, start, bind}

-- Every token in the queue has been allocated.
abbrev pub IsAllocated : {S : Type 0} → World S → Type 0
IsAllocated w = (i : ℕ) → In i w.queue → i < w.token_count

contains_self : (c : ℕ) (xs : List ℕ) → contains c (c ∷ xs) ≡ true
unfolding contains
contains_self c xs = ground arith

module _ {S : Type 0} where
  -- What binding an unbound coroutine does: one start token joins the queue, at the current time
  -- plus the latency and with the resolved priority; the coroutine is bound to this environment,
  -- with the running coroutine for its parent, and is managed. The clock stays.
  pub record IsStarted (c : ℕ) (inherited : ℤ) (w v : World S) : Type 0 where
    pub queued : v.queue ≡ w.token_count ∷ w.queue
    pub start_time : (v.token w.token_count).time ≡ w.now +ℤ (w.coroutine c).latency
    pub start_priority :
        (v.token w.token_count).priority ≡ resolve (w.coroutine c).priority inherited
    pub starts : (v.token w.token_count).coro_data ≡ some c
    pub own_env : (v.coroutine c).env ≡ some w.id
    pub own_parent : (v.coroutine c).parent ≡ w.current
    pub own_priority : (v.coroutine c).priority ≡ resolve (w.coroutine c).priority inherited
    pub managed : contains c v.coroutines ≡ true
    pub clock : v.now ≡ w.now
    pub other_tokens : (i : ℕ) → i ≢ w.token_count → v.token i ≡ w.token i
    pub other_coroutines : (d : ℕ) → d ≢ c → v.coroutine d ≡ w.coroutine d

  start-IsStarted :
      (c : ℕ) (inherited : ℤ) (w : World S) → IsStarted c inherited w (start c inherited w)
  unfolding start
  start-IsStarted c inherited w = record {
    queued = refl;
    start_time = ground arith;
    start_priority = ground arith;
    starts = ground arith;
    own_env = ground arith;
    own_parent = ground arith;
    own_priority = ground arith;
    managed = ground (arith, contains_self c w.coroutines);
    clock = refl;
    other_tokens = λ i h. ground arith;
    other_coroutines = λ d h. ground arith;
  }

  started-env :
      (c : ℕ) (p : ℤ) (w : World S) → ((start c p w).coroutine c).env ≡ some (start c p w).id
  unfolding start
  started-env c p w = ground arith

  bound-after :
      (c : ℕ) (p : ℤ) (w v : World S) → bind c p w ≡ done v → (v.coroutine c).env ≡ some v.id
  unfolding bind
  bound-after c p w v e = elim (Option-cases (w.coroutine c).env) [
    | inr (x, bound) ↦ ground (arith, bound)
    | inl unbound ↦
        let same : start c p w ≡ v = ground (arith, unbound) in rw (← same) (started-env c p w)
  ]

  -- Binding an unbound coroutine succeeds: one start token joins the queue, at the present time
  -- plus the latency and with the coroutine's own priority, or the inherited one where it says so;
  -- the coroutine is bound to this environment, has the running coroutine for its parent, and is
  -- managed. The clock, the other tokens and the other coroutines stay.
  pub bind-IsStarted :
      (c : ℕ) (inherited : ℤ) (w : World S)
      → (w.coroutine c).env ≡ none
      → (v : World S) × (bind c inherited w ≡ done v) × IsStarted c inherited w v
  unfolding bind
  bind-IsStarted c inherited w unbound =
      (start c inherited w, ground arith, start-IsStarted c inherited w)

  -- After a binding that succeeded, a second one in the same environment changes nothing, whatever
  -- priority it offers.
  pub bind-twice : (c : ℕ) (p p' : ℤ) (w v : World S) → bind c p w ≡ done v → bind c p' v ≡ done v
  unfolding bind
  bind-twice c p p' w v e = ground (arith, bound-after c p w v e)

  -- Binding a coroutine of another environment throws, and changes nothing.
  pub bind-elsewhere :
      (c e : ℕ) (p : ℤ) (w : World S)
      → (w.coroutine c).env ≡ some e
      → e ≢ w.id
      → bind c p w ≡ threw bound_elsewhere w
  unfolding bind
  bind-elsewhere c e p w bound other = ground arith

  -- If no event of the queue is past, all its tokens are allocated and the latency is not
  -- negative, then both still hold after the start of the coroutine.
  pub start-IsCausal :
      (c : ℕ) (p : ℤ) (w : World S)
      → IsCausal w
      → IsAllocated w
      → pos 0 ≤ℤ (w.coroutine c).latency
      → IsCausal (start c p w) × IsAllocated (start c p w)
  unfolding start
  start-IsCausal c p w causal allocated late = (
    λ i m. ground (arith, causal i, allocated i, +ℤ_parts w.now (w.coroutine c).latency),
    λ i m. ground (arith, allocated i),
  )
