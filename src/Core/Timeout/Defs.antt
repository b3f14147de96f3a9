-- ===== src/Core/Timeout/Defs.antt =====
-- include/cxxdes/core/impl/timeout.ipp: `timeout`/`delay`, `instant`/`until`, `lazy_timeout` and
-- `yield`.
use libcxxdes.Base.{ℕ, Bool, true, false, Option, none, some, if◌then◌else◌}
use libcxxdes.Base.Int.{ℤ, pos, ◌+ℤ◌, leb_ℤ}
use libcxxdes.Misc.Time.{TimeExpr}
use libcxxdes.Core.Token.{Token, resolve, inherit}
use libcxxdes.Core.World.{World, new_token, schedule_token}
use libcxxdes.Core.Environment.{real_to_sim}

-- What `derived().time()` is computed from: ticks, or an expression that the environment converts.
pub data Amount : Type 0 where
  ticks : ℤ → Amount
  expression : TimeExpr → Amount

-- `timeout_base<Derived, Timeout>`
pub record Timeout : Type 0 where
  pub relative : Bool
  pub amount : Amount
  pub priority : ℤ
  pub tkn : Option ℕ

-- `timeout(t, priority)` and `delay`, `instant(t, priority)` and `until`.
unfoldable pub timeout : Amount → ℤ → Timeout
timeout a priority = record { relative = true; amount = a; priority = priority; tkn = none }

unfoldable pub instant : Amount → ℤ → Timeout
instant a priority = record { relative = false; amount = a; priority = priority; tkn = none }

-- `yield()`
unfoldable pub yield : Timeout
unfolding timeout
yield = timeout (ticks (pos 0)) inherit

-- `lazy_timeout_functor`'s result, with `tsim`.
pub record LazyTimeout : Type 0 where
  pub amount : Amount
  pub priority : ℤ
  pub tsim : ℤ

unfoldable pub lazy_timeout : Amount → ℤ → LazyTimeout
lazy_timeout a priority = record { amount = a; priority = priority; tsim = pos 0 }

unfoldable pub await_bind : Timeout → ℤ → Timeout
unfolding resolve
await_bind a inherited = record a { priority = resolve a.priority inherited }

unfoldable pub await_resume : Timeout → Timeout
await_resume a = record a { tkn = none }

-- The lazy variant is always ready; awaiting it yields an absolute timeout.
unfoldable pub lazy_resume : LazyTimeout → Timeout
unfolding instant
lazy_resume a = instant (ticks a.tsim) a.priority

module _ {S : Type 0} where
  -- `derived().time()`
  unfoldable pub time_of : Amount → World S → ℤ
  unfolding real_to_sim
  time_of (ticks t) w = t
  time_of (expression e) w = real_to_sim w e

  unfoldable pub await_ready : Timeout → World S → Bool
  unfolding time_of
  await_ready a w = if a.relative then false else leb_ℤ (time_of a.amount w) w.now

  unfoldable pub resume_time : Timeout → World S → ℤ
  unfolding time_of
  resume_time a w = if a.relative then w.now +ℤ time_of a.amount w else time_of a.amount w

  unfoldable pub await_suspend : Timeout → Option ℕ → World S → Timeout × World S
  unfolding new_token schedule_token resume_time
  await_suspend a caller w =
      let t : Token = record {
        time = resume_time a w;
        priority = a.priority;
        coro_data = caller;
        handler = none;
        eptr = none;
      } in
      (record a { tkn = some w.token_count }, schedule_token w.token_count (new_token t w))

  -- `await_bind` of the lazy variant captures the deadline.
  unfoldable pub lazy_bind : LazyTimeout → World S → LazyTimeout
  unfolding time_of
  lazy_bind a w = record a { tsim = w.now +ℤ time_of a.amount w }

  -- `environment::timeout`, of a node or of a scalar
  unfoldable pub environment_timeout : TimeExpr → World S → Timeout
  unfolding real_to_sim timeout
  environment_timeout t w = timeout (ticks (real_to_sim w t)) inherit
