-- ===== src/Core/Process/Programs.antt =====
-- include/cxxdes/core/impl/sequential.ipp, impl/compositions.ipp, impl/async.ipp,
-- impl/co_with.ipp, and `as_coroutine` of impl/coroutine.ipp: the coroutines that the library
-- itself writes.
use libcxxdes.Base.{ℕ, Option, none, List, [], ◌∷◌}
use libcxxdes.Core.World.{any_of, all_of}
use libcxxdes.Core.Composition.{AnyAll, compose}
use libcxxdes.Core.Coroutine.{Coroutine, new_coroutine}
use libcxxdes.Core.Process.Frames.{
  Result, returned, raised, Body, co_return, co_throw, co_await, act, call, inline,
}

module _ {C V G : Type 0} where
  -- `co_await a` outside any `try`: an exception leaves the body.
  unfoldable pub outside_try : (V → Body C V G) → Result V → Body C V G
  outside_try f (returned v) = f v
  outside_try f (raised e) = co_throw e

  unfoldable pub await_then : C → (V → Body C V G) → Body C V G
  unfolding outside_try
  await_then a f = co_await a (outside_try f)

  -- `seq_proc_tuple`, `seq_proc_range` and `seq_proc_vector`
  unfoldable pub sequential_body : List C → Body C V G
  unfolding await_then
  sequential_body [] = co_return none
  sequential_body (a ∷ rest) = await_then a (λ v. sequential_body rest)

  -- A subroutine call outside any `try`.
  unfoldable pub inline_then : Body C V G → (Option ℕ → Body C V G) → Body C V G
  unfolding inline
  inline_then s f = inline s (λ r. elim r [ returned x ↦ f x | raised e ↦ co_throw e ])

  -- `subroutine::as_coroutine`
  unfoldable pub as_coroutine : Body C V G → Body C V G
  unfolding inline_then
  as_coroutine s = inline_then s (λ r. co_return r)

  -- `operator+(a, f)` of `_Co_with`
  unfoldable pub co_with : Body C V G → Body C V G → Body C V G → Body C V G
  unfolding inline_then
  co_with acquire body release =
      inline_then acquire (λ h. inline_then body (λ r. inline_then release (λ u. co_return none)))

  -- `operator>>(a, output)` and `flag_done(flag)`, where `set` writes the variable.
  unfoldable pub output_to : C → (V → G → G) → Body C V G
  unfolding await_then
  output_to a set = await_then a (λ v. act (λ t g. set v g) (co_return none))

  unfoldable pub flag_done : (G → G) → Body C V G
  flag_done set = act (λ t g. set g) (co_return none)

  -- `co_await async(a)` of an awaitable that is no coroutine, where `launch` awaits the start of
  -- one.
  unfoldable pub async_by_value : (Coroutine → C) → C → (Result V → Body C V G) → Body C V G
  unfolding sequential_body
  async_by_value launch a k =
      call (sequential_body (a ∷ [])) (λ c. co_await (launch (new_coroutine c)) k)

-- `operator||` and `operator&&`
unfoldable pub either_of : {C : Type 0} → C → C → AnyAll C
either_of a b = compose any_of (a ∷ b ∷ [])

unfoldable pub both_of : {C : Type 0} → C → C → AnyAll C
both_of a b = compose all_of (a ∷ b ∷ [])
