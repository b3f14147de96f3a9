-- ===== src/Core/Coroutine/Handle.antt =====
-- include/cxxdes/core/impl/coroutine.ipp: the handle `coroutine<ReturnType, Unique>`, and `bind` of
-- impl/environment.ipp. A value is a number; a handle here refers to coroutine state.
use libcxxdes.Base.{ℕ, Bool, Option, none, some, if◌then◌else◌}
use libcxxdes.Base.Int.{ℤ, pos}
use libcxxdes.Core.Token.{Token, already_awaited, no_return_value, resolve, inherit}
use libcxxdes.Core.World.{World, Outcome, done, threw, new_token}
use libcxxdes.Core.Coroutine.Data.{bind, add_completion_token}

pub record Coroutine : Type 0 where
  pub coro_data : ℕ
  pub completion_token : Option ℕ
  pub return_latency : ℤ
  pub return_priority : ℤ

-- The handle that a coroutine function returns.
abbrev pub new_coroutine : ℕ → Coroutine
new_coroutine c = record {
  coro_data = c;
  completion_token = none;
  return_latency = pos 0;
  return_priority = inherit;
}

-- Copy assignment, of a shared handle: the awaiting is not copied.
unfoldable pub copy_assign : Coroutine → Coroutine → Coroutine
copy_assign target other = record {
  coro_data = other.coro_data;
  completion_token = none;
  return_latency = other.return_latency;
  return_priority = other.return_priority;
}

module _ {S : Type 0} where
  unfoldable pub await_bind : Coroutine → ℤ → World S → Outcome (World S)
  unfolding bind
  await_bind p priority w = bind p.coro_data priority w

  unfoldable pub await_ready : Coroutine → World S → Bool
  await_ready p w = (w.coroutine p.coro_data).complete

  -- The completion token of a new suspension.
  abbrev pub completion_of : Coroutine → Option ℕ → World S → Token
  completion_of p caller w = record {
    time = p.return_latency;
    priority = resolve p.return_priority (w.coroutine p.coro_data).priority;
    coro_data = caller;
    handler = none;
    eptr = none;
  }

  -- The part of `await_suspend` behind its guard.
  unfoldable pub suspend : Coroutine → Option ℕ → World S → Coroutine × World S
  unfolding new_token add_completion_token
  suspend p caller w = (
    record p { completion_token = some w.token_count },
    add_completion_token w.token_count p.coro_data (new_token (completion_of p caller w) w),
  )

  -- `await_suspend`: what throws leaves the handle and the world as they are.
  unfoldable pub await_suspend : Coroutine → Option ℕ → World S → Outcome (Coroutine × World S)
  unfolding suspend
  await_suspend p caller w = elim p.completion_token [
    | some t ↦ threw already_awaited (p, w)
    | none ↦ done (suspend p caller w)
  ]

  -- `await_resume(no_return_value_tag)`: the token is let go before its exception is thrown.
  unfoldable pub await_resume_tag : Coroutine → World S → Outcome Coroutine
  await_resume_tag p w = elim p.completion_token [
    | none ↦ done p
    | some t ↦ elim (w.token t).eptr [
      | some e ↦ threw e (record p { completion_token = none })
      | none ↦ done (record p { completion_token = none })
    ]
  ]

  -- `await_resume()` where a value is returned.
  unfoldable pub await_resume : Coroutine → World S → Outcome (Coroutine × Option ℕ)
  unfolding await_resume_tag
  await_resume p w = elim (await_resume_tag p w) [
    | threw e p' ↦ threw e (p', none)
    | done p' ↦ elim (w.coroutine p.coro_data).return_value [
      | none ↦ threw no_return_value (p', none)
      | some x ↦ done (p', some x)
    ]
  ]

  -- `environment::bind`
  unfoldable pub bind_to : Coroutine → World S → Outcome (Coroutine × World S)
  unfolding await_bind await_ready await_suspend
  bind_to p w = elim (await_bind p (pos 0) w) [
    | threw e w' ↦ threw e (p, w')
    | done w' ↦ if await_ready p w' then done (p, w') else await_suspend p none w'
  ]
