-- ===== src/Examples/ControlFlow.antt =====
-- src/tests/controlflow.test.cpp: Async1, Compositions1, Compositions2 and
-- AllOfDoesNotSuspendReadyChildren. What a test expects of the clock is printed with the time.
use libcxxdes.Base.{none, [], ◌∷◌}
use libcxxdes.Base.Int.{pos}
use libcxxdes.Core.Token.{inherit}
use libcxxdes.Core.Timeout.{ticks, instant}
use libcxxdes.Core.Coroutine.{new_coroutine}
use libcxxdes.Core.Process.{
  Value, handle, sleep, join_void, launch, co_return, call, outside_try, single, composed,
  either_of, both_of, sequential_body, async_by_value,
}
use libcxxdes.Examples.Base.{Awaiter, Code, print, leaf, delay, await_only}

-- `co_await x;` where `x` is the handle that `async` yields
unfoldable pub await_handle : Value → Code → Code
await_handle v b = elim v [ handle p ↦ await_only (leaf (join_void p)) b | other ↦ b ]

-- `auto x = co_await async(a);`
unfoldable pub async_of : Awaiter → (Value → Code) → Code
unfolding async_by_value
async_of a k = async_by_value (λ p. leaf (launch p)) a (outside_try k)

-- Async1
unfoldable pub async1_main : Code
unfolding async_of await_handle
async1_main = async_of (leaf (delay 100)) (λ x.
    print "now"
      (await_only (leaf (delay 5)) (print "now" (await_handle x (print "now" (co_return none))))))

-- `(delay(1000) && delay(5)) || (delay(100) && delay(1))`
unfoldable pub nested : Awaiter
unfolding either_of both_of
nested = composed (
    either_of (composed (both_of (delay 1_000) (delay 5)))
      (composed (both_of (delay 100) (delay 1))))

-- `(delay(10), delay(20), delay(30))`
unfoldable pub in_sequence : (Awaiter → Code) → Code
unfolding sequential_body
in_sequence k = call (sequential_body (leaf (delay 10) ∷ leaf (delay 20) ∷ [])) (λ c.
    call (sequential_body (leaf (join_void (new_coroutine c)) ∷ leaf (delay 30) ∷ []))
      (λ d. k (leaf (join_void (new_coroutine d)))))

-- Compositions1
unfoldable pub compositions1_main : Code
unfolding nested in_sequence either_of both_of
compositions1_main = await_only (single (composed (both_of (delay 10) (delay 20)))) (
    print "now" (
      await_only (single (composed (either_of (delay 10) (delay 20)))) (
        print "now" (
          await_only nested (
            print "now" (
              in_sequence (λ a. await_only a (
                print "now" (
                  await_only nested (
                    print "now"
                      (in_sequence (λ b. await_only b (print "now" (co_return none))))))))))))))

-- Compositions2
unfoldable pub compositions2_main : Code
unfolding sequential_body both_of async_of await_handle
compositions2_main = call (sequential_body (leaf (delay 10) ∷ [])) (λ c.
    call (sequential_body (leaf (delay 20) ∷ [])) (λ d.
      await_only (single (composed (both_of (launch (new_coroutine c)) (launch (new_coroutine d)))))
        (print "now" (
          async_of (single (composed (both_of (delay 10) (delay 100))))
            (λ x. print "now" (await_handle x (print "now" (co_return none))))))))

-- AllOfDoesNotSuspendReadyChildren
unfoldable pub ready_children_main : Code
unfolding both_of
ready_children_main =
    await_only (single (composed (both_of (sleep (instant (ticks (pos 0)) inherit)) (delay 5))))
      (print "now" (co_return none))
