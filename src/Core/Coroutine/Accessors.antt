-- ===== src/Core/Coroutine/Accessors.antt =====
-- include/cxxdes/core/impl/coroutine.ipp: the settings of a handle and its moves; impl/async.ipp.
use libcxxdes.Base.{◌∙◌, ℕ, suc, ◌≡◌, refl, false, none, if◌then◌else◌, arith, [], ◌∷◌, ◌++◌}
use libcxxdes.Base.Int.{ℤ, ◌+ℤ◌}
use libcxxdes.Core.Token.{resolve}
use libcxxdes.Core.World.{World, Outcome, done, threw, set_coroutine}
use libcxxdes.Core.Coroutine.Data.{bind, start}
use libcxxdes.Core.Coroutine.Handle.{
  Coroutine, await_bind, await_ready, await_suspend, await_resume_tag, suspend,
}

-- `operator=(coroutine &&)`: the target and what is left of the source, whose reference
-- to the state swaps with that of the target, as `ptr`'s move assignment does.
unfoldable pub move_assign : Coroutine → Coroutine → Coroutine × Coroutine
move_assign target other = (other, target)

-- `return_priority(priority)` and `return_latency(latency)`
unfoldable pub set_return_priority : ℤ → Coroutine → Coroutine
set_return_priority priority p = record p { return_priority = priority }

unfoldable pub set_return_latency : ℤ → Coroutine → Coroutine
set_return_latency latency p = record p { return_latency = latency }

module _ {S : Type 0} where
  -- `priority(priority)` and `latency(latency)`, which the state keeps.
  unfoldable pub set_priority : ℤ → Coroutine → World S → World S
  unfolding set_coroutine
  set_priority priority p w =
      set_coroutine p.coro_data (record (w.coroutine p.coro_data) { priority = priority }) w

  unfoldable pub set_latency : ℤ → Coroutine → World S → World S
  unfolding set_coroutine
  set_latency latency p w =
      set_coroutine p.coro_data (record (w.coroutine p.coro_data) { latency = latency }) w

  -- The part of `async_awaitable::await_bind` behind the binding: a completion token, for the
  -- exceptions of the coroutine, which the handle lets go at once.
  unfoldable pub async_detach : Coroutine → World S → Outcome (Coroutine × World S)
  unfolding await_ready await_suspend await_resume_tag
  async_detach p w = elim (if await_ready p w then done (p, w) else await_suspend p none w) [
    | threw e (p', v) ↦ threw e (p', v)
    | done (p', v) ↦ elim (await_resume_tag p' v) [
      | threw e p'' ↦ threw e (p'', v)
      | done p'' ↦ done (p'', v)
    ]
  ]

  -- `async_awaitable::await_bind`
  unfoldable pub async_bind : Coroutine → ℤ → World S → Outcome (Coroutine × World S)
  unfolding await_bind async_detach
  async_bind p priority w = elim (await_bind p priority w) [
    | threw e v ↦ threw e (p, v)
    | done v ↦ async_detach p v
  ]

  -- A start has the latency and the priority that were set.
  pub set-start :
      (p : Coroutine) (l i r : ℤ) (w : World S)
      → let v = start p.coro_data i (set_latency l p (set_priority r p w)) in
        ((v.token w.token_count).time ≡ w.now +ℤ l)
        × ((v.token w.token_count).priority ≡ resolve r i)
  unfolding set_latency set_priority start
  set-start p l i r w = (ground arith, ground arith)

  detached :
      (p : Coroutine) (w : World S)
      → p.completion_token ≡ none
      → (w.coroutine p.coro_data).complete ≡ false
      → (w.coroutine p.coro_data).unique ≡ false
      → (v : World S) × (async_detach p w ≡ done (p, v))
        × (v.queue ≡ w.queue)
        × ((v.coroutine p.coro_data).completion_tokens
            ≡ (w.coroutine p.coro_data).completion_tokens ++ w.token_count ∷ [])
        × ((v.token w.token_count).coro_data ≡ none)
  unfolding async_detach suspend
  detached p w free incomplete shared =
      ((suspend p none w).1, ground arith, refl, ground arith, ground arith)

  started_fields :
      (c : ℕ) (i : ℤ) (w : World S)
      → ((start c i w).token_count ≡ suc w.token_count)
        × (((start c i w).coroutine c).complete ≡ (w.coroutine c).complete)
        × (((start c i w).coroutine c).unique ≡ (w.coroutine c).unique)
        × (((start c i w).coroutine c).completion_tokens ≡ (w.coroutine c).completion_tokens)
        × ((start c i w).queue ≡ w.token_count ∷ w.queue)
  unfolding start
  started_fields c i w = (refl, ground arith, ground arith, ground arith, refl)

  -- The asynchronous start of an unbound shared coroutine that is not complete, through a handle
  -- that is not awaited, succeeds: it schedules the start token and nothing else, registers one
  -- completion token that resumes nobody, and leaves the handle as it was, free to be awaited.
  pub async_bind-free :
      (p : Coroutine) (i : ℤ) (w : World S)
      → p.completion_token ≡ none
      → (w.coroutine p.coro_data).env ≡ none
      → (w.coroutine p.coro_data).complete ≡ false
      → (w.coroutine p.coro_data).unique ≡ false
      → (v : World S) × (async_bind p i w ≡ done (p, v))
        × (v.queue ≡ w.token_count ∷ w.queue)
        × ((v.coroutine p.coro_data).completion_tokens
            ≡ (w.coroutine p.coro_data).completion_tokens ++ suc w.token_count ∷ [])
        × ((v.token (suc w.token_count)).coro_data ≡ none)
  unfolding async_bind await_bind bind
  async_bind-free p i w free unbound incomplete shared =
      let u = start p.coro_data i w in
      let (n, c, k, ts, q) = started_fields p.coro_data i w in
      let (v, ran, same, tokens, nobody) = detached p u free (c ∙ incomplete) (k ∙ shared) in
      (
        v,
        ground (arith, unbound, ran),
        ground (same, q, arith),
        ground (arith, tokens, ts, n),
        ground (arith, nobody, n),
      )
