-- ===== src/Core/Process/Calls.antt =====
-- include/cxxdes/core/impl/subroutine.ipp: the coroutine that wraps a subroutine.
use mathlib.Core.Path.{fun_ext}
use libcxxdes.Base.{◌≡◌, refl, ap}
use libcxxdes.Core.Process.Frames.{
  Body, co_return, co_throw, co_await, act, look, this_coroutine, inspect, call, call_unique, loop,
  inline, with_priority, with_latency,
}
use libcxxdes.Core.Process.Programs.{as_coroutine}

module _ {C V G : Type 0} where
  -- The coroutine that wraps a subroutine, `as_coroutine`, runs as the subroutine does.
  pub as_coroutine-same : (s : Body C V G) → as_coroutine s ≡ s
  unfolding as_coroutine inline
  as_coroutine-same (co_return r) = refl
  as_coroutine-same (co_throw e) = refl
  as_coroutine-same (co_await a f) = ap (co_await a) (fun_ext λ r. as_coroutine-same (f r))
  as_coroutine-same (act f b) = ap (act f) (as_coroutine-same b)
  as_coroutine-same (look f) = ap look (fun_ext λ t. fun_ext λ g. as_coroutine-same (f t g))
  as_coroutine-same (this_coroutine f) = ap this_coroutine (fun_ext λ c. as_coroutine-same (f c))
  as_coroutine-same (inspect d f) = ap (inspect d) (fun_ext λ x. as_coroutine-same (f x))
  as_coroutine-same (call b f) = ap (call b) (fun_ext λ c. as_coroutine-same (f c))
  as_coroutine-same (call_unique b f) = ap (call_unique b) (fun_ext λ c. as_coroutine-same (f c))
  as_coroutine-same (loop f s k) = ap (loop f s) (fun_ext λ r. as_coroutine-same (k r))
  as_coroutine-same (with_priority d p b) = ap (with_priority d p) (as_coroutine-same b)
  as_coroutine-same (with_latency d l b) = ap (with_latency d l) (as_coroutine-same b)
