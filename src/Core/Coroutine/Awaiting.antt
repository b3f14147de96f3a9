-- ===== src/Core/Coroutine/Awaiting.antt =====
-- include/cxxdes/core/impl/coroutine.ipp: awaiting a coroutine through its handle, from the
-- suspension of the waiter to the value or the exception that it resumes with.
use mathlib.Core.Path.{subst}
use libcxxdes.Base.{
  ℕ, suc, ◌≡◌, refl, ◌∙◌, false, Option, none, some, Option-cases, inl, inr, List, [], ◌∷◌, ◌++◌,
  count, count-append, In, Distinct, arith,
}
use libcxxdes.Base.Int.{◌+ℤ◌}
use libcxxdes.Core.Token.{Exception, already_awaited, resolve}
use libcxxdes.Core.World.{World, done, threw, set_coroutine}
use libcxxdes.Core.Coroutine.Data.{return_value, unhandled_exception}
use libcxxdes.Core.Coroutine.Completion.{do_return-IsCompleted, unhandled_exception-IsCompleted}
use libcxxdes.Core.Coroutine.Handle.{
  Coroutine, suspend, await_suspend, await_resume_tag, await_resume,
}

abbrev pub tokens_of : {S : Type 0} → Coroutine → World S → List ℕ
tokens_of p w = (w.coroutine p.coro_data).completion_tokens

module _ {S : Type 0} where
  -- What a suspension on a shared coroutine does: the new token is the handle's, and the last of
  -- the coroutine's completion tokens; it will resume the waiter, with the return latency and the
  -- return priority, or the coroutine's own where that says to inherit.
  pub record IsSuspended (p : Coroutine) (caller : Option ℕ) (w : World S) (p' : Coroutine)
      (v : World S) : Type 0 where
    pub same_target : p'.coro_data ≡ p.coro_data
    pub awaits : p'.completion_token ≡ some w.token_count
    pub registered : tokens_of p' v ≡ tokens_of p w ++ w.token_count ∷ []
    pub latency : (v.token w.token_count).time ≡ p.return_latency
    pub priority :
        (v.token w.token_count).priority
        ≡ resolve p.return_priority (w.coroutine p.coro_data).priority
    pub waiter : (v.token w.token_count).coro_data ≡ caller
    pub no_exception : (v.token w.token_count).eptr ≡ none
    pub same_unique : (v.coroutine p'.coro_data).unique ≡ (w.coroutine p.coro_data).unique
    pub same_queue : v.queue ≡ w.queue
    pub same_now : v.now ≡ w.now

  suspend-IsSuspended :
      (p : Coroutine) (caller : Option ℕ) (w : World S)
      → (w.coroutine p.coro_data).unique ≡ false
      → IsSuspended p caller w (suspend p caller w).0 (suspend p caller w).1
  unfolding suspend
  suspend-IsSuspended p caller w shared = record {
    same_target = refl;
    awaits = refl;
    registered = ground (arith, shared);
    latency = ground arith;
    priority = ground arith;
    waiter = ground arith;
    no_exception = ground arith;
    same_unique = ground (arith, shared);
    same_queue = refl;
    same_now = refl;
  }

  -- A handle that is not being awaited can be awaited; one that is cannot.
  pub await_suspend-IsSuspended :
      (p : Coroutine) (caller : Option ℕ) (w : World S)
      → (w.coroutine p.coro_data).unique ≡ false
      → p.completion_token ≡ none
      → (p' : Coroutine) × (v : World S) × (await_suspend p caller w ≡ done (p', v))
        × IsSuspended p caller w p' v
  unfolding await_suspend
  await_suspend-IsSuspended p caller w shared free = (
    (suspend p caller w).0,
    (suspend p caller w).1,
    ground (arith, free),
    suspend-IsSuspended p caller w shared,
  )

  -- After a suspension through a handle that succeeded, another one through the same handle throws
  -- in whatever world, and changes nothing.
  pub await_suspend-twice :
      (p p' : Coroutine) (a b : Option ℕ) (w v u : World S)
      → await_suspend p a w ≡ done (p', v)
      → await_suspend p' b u ≡ threw already_awaited (p', u)
  unfolding await_suspend
  await_suspend-twice p p' a b w v u e = ground arith

  -- After a resumption through a handle that threw, another one through the same handle ends
  -- normally: an exception is rethrown to the waiter once.
  pub await_resume_tag-once :
      (p p' : Coroutine) (w v : World S) (e : Exception)
      → await_resume_tag p w ≡ threw e p'
      → await_resume_tag p' v ≡ done p'
  unfolding await_resume_tag
  await_resume_tag-once p p' w v e h = ground arith

  module _ (p : Coroutine) (caller : Option ℕ) (w : World S)
      (shared : (w.coroutine p.coro_data).unique ≡ false) (once : Distinct (tokens_of p w))
      (fresh : count w.token_count (tokens_of p w) ≡ 0) {p' : Coroutine} {v : World S}
      (suspended : await_suspend p caller w ≡ done (p', v)) where
    suspension : IsSuspended p caller w p' v
    unfolding await_suspend
    suspension = elim (Option-cases p.completion_token) [
      | inr (t, busy) ↦ absurd (ground (arith, busy))
      | inl free ↦
          let same : suspend p caller w ≡ (p', v) = ground (arith, free) in
          subst (λ r. IsSuspended p caller w r.0 r.1) same (suspend-IsSuspended p caller w shared)
    ]

    once' : Distinct (tokens_of p' v)
    once' i =
        rw suspension.registered
          (ground (arith, count-append i (tokens_of p w) (w.token_count ∷ []), once i, fresh))

    counted : count w.token_count (tokens_of p' v) ≡ 1
    counted =
        rw suspension.registered
          (ground (arith, count-append w.token_count (tokens_of p w) (w.token_count ∷ []), fresh))

    listed : In w.token_count (tokens_of p' v)
    listed =
        rw suspension.registered
          (ground (arith, count-append w.token_count (tokens_of p w) (w.token_count ∷ [])))

    -- A shared coroutine whose completion tokens are distinct is awaited through a handle, by a
    -- token that is new. If it then ends by an exception, its completion succeeds, and the
    -- waiter's `await_resume` rethrows that exception and frees the handle.
    pub exception_reaches_waiter :
        (e : Exception)
        → (u : World S) × (unhandled_exception e p'.coro_data v ≡ some u)
          × (await_resume p' u ≡ threw e (record p' { completion_token = none }, none))
    unfolding await_resume
    exception_reaches_waiter e =
        let (u, ended, _, carried, _) =
          unhandled_exception-IsCompleted e p'.coro_data v (suspension.same_unique ∙ shared)
            once' in
        (u, ended, ground (arith, suspension.awaits, carried w.token_count listed))

    -- A shared coroutine whose completion tokens are distinct is awaited through a handle, by a
    -- token that is new. If it then returns a value, its completion succeeds; that token is put
    -- into the queue, once more than it was there, for the coroutine that waits and at the present
    -- time plus the return latency; and the waiter's `await_resume` yields that value and frees
    -- the handle.
    pub value_reaches_waiter :
        (x : ℕ)
        → (u : World S) × (return_value x p'.coro_data v ≡ some u)
          × (count w.token_count u.queue ≡ suc (count w.token_count w.queue))
          × ((u.token w.token_count).coro_data ≡ caller)
          × ((u.token w.token_count).time ≡ p.return_latency +ℤ w.now)
          × (await_resume p' u ≡ done (record p' { completion_token = none }, some x))
    unfolding await_resume return_value set_coroutine
    value_reaches_waiter x =
        let (u, ended, completed) =
          do_return-IsCompleted p'.coro_data with_value valued.0 valued.1 in
        (
          u,
          ended,
          ground (arith, completed.queued w.token_count, counted, suspension.same_queue),
          ground (arith, completed.resumes w.token_count valued.2, suspension.waiter),
          ground (
            arith,
            completed.resumes w.token_count valued.2,
            suspension.latency,
            suspension.same_now,
          ),
          ground (
            arith,
            suspension.awaits,
            suspension.no_exception,
            completed.resumes w.token_count valued.2,
            completed.kept_value,
          ),
        )
      where
        with_value : World S
        with_value =
            set_coroutine p'.coro_data (record (v.coroutine p'.coro_data) { return_value = some x })
              v

        valued :
            ((with_value.coroutine p'.coro_data).unique ≡ false)
            × Distinct (with_value.coroutine p'.coro_data).completion_tokens
            × In w.token_count (with_value.coroutine p'.coro_data).completion_tokens
        valued = (
          ground (arith, suspension.same_unique, shared),
          λ i. ground (arith, once' i),
          ground (arith, listed),
        )
