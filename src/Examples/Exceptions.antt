-- ===== src/Examples/Exceptions.antt =====
-- src/examples/exceptions.cpp
use libcxxdes.Base.{ℕ, Option, none, List}
use libcxxdes.Core.Token.{Exception, program}
use libcxxdes.Core.Coroutine.{new_coroutine}
use libcxxdes.Core.Process.{
  Result, returned, raised, co_return, co_throw, call, single, composed, join_void, either_of,
  inline, inline_then,
}
use libcxxdes.Examples.Base.{
  Line, Code, print, print_caught, leaf, delay, await_only, try_await, start_async, run_code,
  reported,
}

-- The exceptions that are thrown, by their places in the file.
abbrev pub from_f : Exception
from_f = program 0

abbrev pub from_h : Exception
from_h = program 1

abbrev pub from_co_main : Exception
from_co_main = program 2

abbrev pub from_coro2 : Exception
from_coro2 = program 3

unfoldable pub longfn : Code
longfn = await_only (leaf (delay 100)) (co_return none)

unfoldable pub f : Code
f = co_throw from_f

unfoldable pub g : Code
unfolding inline_then f
g = inline_then f (λ r. co_return none)

unfoldable pub h : Code
unfolding inline g
h = inline g go
  where
    go : Result (Option ℕ) → Code
    go (returned r) = co_throw from_h
    go (raised e) = print_caught "[h] Exception" e (co_throw from_h)

unfoldable pub co_main1 : Code
unfolding h
co_main1 = call h (λ c.
    try_await (leaf (join_void (new_coroutine c))) "[co_main1] Exception" (co_throw from_co_main))

unfoldable pub co_main2 : Code
unfolding h longfn
co_main2 = call longfn (λ d. start_async d (
    call h (λ c.
      try_await (leaf (join_void (new_coroutine c))) "[co_main2] Exception"
        (co_throw from_co_main))))

unfoldable pub nested_exceptions1 : ℕ → Option (List Line)
unfolding run_code co_main1
nested_exceptions1 fuel = reported "[nestedExceptions1] Exception" (run_code co_main1 fuel)

unfoldable pub nested_exceptions2 : ℕ → Option (List Line)
unfolding run_code co_main2
nested_exceptions2 fuel = reported "[nestedExceptions2] Exception" (run_code co_main2 fuel)

-- The coroutine of `stopping`
unfoldable pub stopping : Code
stopping = print "hey!" (
    await_only (leaf (delay 50))
      (await_only (leaf (delay 100)) (print "should not be printed" (co_return none))))

-- `coro2` of `asynchronous1` and of `asynchronous2`
unfoldable pub coro2 : Code
coro2 = await_only (leaf (delay 2)) (print "coro2 $0" (co_throw from_coro2))

unfoldable pub asynchronous1 : ℕ → Option (List Line)
unfolding run_code coro2 either_of
asynchronous1 fuel = reported "[asynchronous] Exception" (run_code coro fuel)
  where
    coro : Code
    coro = call coro2 (λ c.
        await_only (single (composed (either_of (delay 1) (join_void (new_coroutine c)))))
          (print "coro done" (co_return none)))

unfoldable pub asynchronous2 : ℕ → Option (List Line)
unfolding run_code coro2
asynchronous2 fuel = reported "[asynchronous2] Exception" (run_code coro fuel)
  where
    coro : Code
    coro = call coro2 (λ c. start_async c (print "coro done" (co_return none)))
