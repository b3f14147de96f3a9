-- ===== src/Examples/Processes.antt =====
-- src/tests/process.test.cpp. What a test expects of the clock is printed with the time.
use libcxxdes.Base.{ℕ, if◌then◌else◌, zero, suc, ◌+◌, ◌*◌, true, none, some, [], ◌∷◌}
use libcxxdes.Base.Int.{pos}
use libcxxdes.Core.Coroutine.{new_coroutine, set_return_latency}
use libcxxdes.Core.Composition.{compose}
use libcxxdes.Core.World.{all_of}
use libcxxdes.Core.Process.{
  Leaf, handle, await_then, inspect, call_unique, with_latency, join, join_void, launch, co_return,
  act, look, call, with_priority, single, composed, either_of, async_by_value, outside_try,
}
use libcxxdes.Examples.Base.{
  Code, await_number, print, print_value, leaf, delay, await_only, await_result, start_async,
}

-- BasicFunctionality
unfoldable pub ten : Code
ten = co_return (some 10)

unfoldable pub basic_main : Code
unfolding ten
basic_main = await_result ten (λ r. print_value "r" r (co_return none))

-- OutOfScope
unfoldable pub slow_ten : Code
slow_ten = await_only (leaf (delay 10)) (co_return (some 10))

unfoldable pub out_of_scope_main : Code
unfolding slow_ten either_of
out_of_scope_main = call slow_ten (λ p.
    await_only (single (composed (either_of (join (new_coroutine p)) (delay 1))))
      (print "now" (co_return none)))

-- Latencies: `co_await f().latency(6).return_latency(8)`
unfoldable pub late_five : Code
late_five = print "start" (await_only (leaf (delay 5)) (print "end" (co_return (some 5))))

unfoldable pub latencies_main : Code
unfolding late_five set_return_latency
latencies_main = call_unique late_five (λ c. with_latency c (pos 6) (
    await_only (leaf (join (set_return_latency (pos 8) (new_coroutine c))))
      (print "now" (co_return none))))

-- AsyncUniqueCoroutine
unfoldable pub answer : Code
answer = await_only (leaf (delay 5)) (co_return (some 42))

unfoldable pub async_unique_main : Code
unfolding answer
async_unique_main = call_unique answer (λ c. await_then (leaf (launch (new_coroutine c))) (λ v.
    elim v [
      | handle p ↦
          print "now" (await_number (leaf (join p)) (λ x. print_value "value" x (co_return none)))
      | other ↦ co_return none
    ]))

-- RunForStopsBeforeFutureEvent
unfoldable pub completed_main : Code
completed_main =
    await_only (leaf (delay 10)) (act (λ t g. record g { completed = true }) (co_return none))

-- Priorities
unfoldable pub counting : ℕ → Code
counting t = await_only (leaf (delay t)) (
    look (λ n g.
      print_value "counter" g.counter
        (act (λ n g. record g { counter = g.counter + 1 }) (co_return none))))

unfoldable pub spawn_counting : Code
unfolding counting
spawn_counting = call (counting 1) (λ a. start_async a (
    call (counting 2)
      (λ b. start_async b (call (counting 3) (λ c. start_async c (co_return none))))))

-- The loop of `reset_counter`, with the number of its rounds.
unfoldable pub reset_counter : ℕ → Code
reset_counter zero = co_return none
reset_counter (suc n) =
    act (λ t g. record g { counter = 100 }) (await_only (leaf (delay 1)) (reset_counter n))

unfoldable pub priorities_main : Code
unfolding spawn_counting reset_counter
priorities_main = spawn 100 (λ a. spawn 101 (λ b. spawn 102 (λ c. call (reset_counter 4) (λ d.
    with_priority d (pos 0) (
      await_only (single (composed (compose all_of (child a ∷ child b ∷ child c ∷ child d ∷ []))))
        (co_return none))))))
  where
    spawn : ℕ → (ℕ → Code) → Code
    spawn p k = call spawn_counting (λ c. with_priority c (pos p) (k c))

    child : ℕ → Leaf
    child c = join_void (new_coroutine c)

-- Recursion
unfoldable pub factorial : ℕ → Code
factorial zero = co_return (some 1)
factorial (suc k) = await_result (factorial k) (λ x. co_return (some (suc k * x)))

unfoldable pub recursion_main : Code
unfolding factorial
recursion_main =
    await_result (await_result (factorial 6) (λ x. co_return (some x)))
      (λ r. print_value "r" r (co_return none))

-- DanglingReference1Solution
unfoldable pub dangling_solution_main : Code
unfolding async_by_value
dangling_solution_main =
    async_by_value (λ p. leaf (launch p)) (leaf (delay 5)) (outside_try (λ v. co_return none))

-- NotDanglingReference1
unfoldable pub hundred : Code
hundred = await_only (leaf (delay 100)) (co_return none)

unfoldable pub not_dangling_main : Code
unfolding hundred
not_dangling_main = call hundred (λ x. start_async x (co_return none))

-- Returncoroutine
unfoldable pub five : Code
five = await_only (leaf (delay 5)) (co_return (some 5))

unfoldable pub return_coroutine_main : Code
unfolding five
return_coroutine_main = call five (λ p. await_only (leaf (join (new_coroutine p))) (
    print "now" (
      inspect p (λ d.
        (if d.complete then print "complete" else print "not complete") (elim d.return_value [
          | none ↦ co_return none
          | some x ↦ print_value "value" x (co_return none)
        ])))))
