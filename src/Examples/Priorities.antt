-- ===== src/Examples/Priorities.antt =====
-- src/examples/capture_return.cpp, debug.cpp, get_environment.cpp, and `test` of
-- process_rewrite.cpp
use libcxxdes.Base.{ℕ, true, false, if◌then◌else◌, none, some, [], ◌∷◌}
use libcxxdes.Base.Int.{ℤ, pos, negsuc}
use libcxxdes.Core.World.{all_of}
use libcxxdes.Core.Timeout.{ticks, timeout, yield}
use libcxxdes.Core.Composition.{compose}
use libcxxdes.Core.Coroutine.{new_coroutine}
use libcxxdes.Core.Process.{
  Leaf, Value, number, sleep, join, join_void, co_return, act, look, this_coroutine, inspect, call,
  with_priority, with_latency, single, composed, either_of, both_of, output_to, flag_done,
  sequential_body,
}
use libcxxdes.Examples.Base.{
  Variables, Code, write, line_signed, print, print_value, leaf, delay, await_only, await_result,
}
use libcxxdes.Examples.Values.{f}

-- `(co_await this_coroutine())->priority()`, printed
unfoldable pub print_priority : Code → Code
print_priority b =
    this_coroutine (λ c. inspect c (λ d. write (λ t. line_signed "priority" t d.priority) b))

-- capture_return.cpp: `f`, with `x` in `counter` and `done` in `completed`
unfoldable pub given : ℕ → Code
unfolding print_priority
given x = print_value "x" x (print_priority (co_return (some x)))

-- `f(n) >> x`
unfoldable pub capture : ℕ → (ℕ → Code) → Code
unfolding given output_to
capture n k = call (given n) (λ c. call (output_to (leaf (join (new_coroutine c))) store) k)
  where
    store : Value → Variables → Variables
    store v g = elim v [ number x ↦ record g { counter = x } | other ↦ g ]

-- The two prints of `x`, and of `x` and `done`.
unfoldable pub print_captured : Code → Code
print_captured b = look (λ t g. print_value "return value" g.counter b)

unfoldable pub print_done : Code → Code
print_done b = look (λ t g.
    print_value "return value" g.counter
      (if g.completed then print "done" b else print "not done" b))

abbrev pub child : ℕ → Leaf
child c = join_void (new_coroutine c)

-- `co_await all_of((f(50) >> x).priority(p), f(80) >> x, timeout(5))`
unfoldable pub race_to_write : ℤ → Code → Code
unfolding capture
race_to_write p b = capture 50 (λ c. with_priority c p (
    capture 80
      (λ d. await_only (single (composed (compose all_of (child c ∷ child d ∷ delay 5 ∷ [])))) b)))

-- The rest of `co_main`, behind `bool done = false;`
unfoldable pub capture_rest : Code
unfolding capture flag_done sequential_body either_of print_done
capture_rest =
    act (λ t g. record g { completed = false })
      (capture 90 (λ c. call (flag_done (λ g. record g { completed = true })) (λ d.
        call (sequential_body (leaf (child c) ∷ leaf (child d) ∷ [])) (λ s. with_latency s (pos 2) (
          await_only (single (composed (either_of (child s) (delay 1)))) (
            print_done (
              await_only (leaf (sleep (timeout (ticks (pos 1)) (pos 2))))
                (print_done (co_return none)))))))))

unfoldable pub capture_main : Code
unfolding capture print_captured both_of race_to_write capture_rest
capture_main = capture 90 (λ c. await_only (leaf (child c)) (
    print_captured (
      capture 66 (λ d. await_only (single (composed (both_of (child d) (delay 5)))) (
        print_captured (
          race_to_write (negsuc 4)
            (print_captured (race_to_write (pos 5) (print_captured capture_rest)))))))))

-- debug.cpp: `p1`, `p2` and `co_main`
unfoldable pub p1 : Code
p1 =
    await_only (leaf (delay 5))
      (print_value "from" 1 (await_only (leaf (delay 5)) (print_value "from" 1 (co_return none))))

unfoldable pub p2 : Code
p2 = await_only (leaf (delay 2)) (
    print_value "from" 2 (
      await_only (leaf (sleep (timeout (ticks (pos 3)) (negsuc 0))))
        (print_value "from" 2 (co_return none))))

unfoldable pub debug_main : Code
unfolding p1 p2 both_of
debug_main = call p1 (λ c.
    call p2 (λ d. await_only (single (composed (both_of (child c) (child d)))) (co_return none)))

-- get_environment.cpp: `p1` and `p2`
unfoldable pub env_p1 : Code
env_p1 = print "p1.a" (
    print "p1.b" (
      await_only (leaf (delay 4))
        (print "p1.c" (await_only (leaf (delay 4)) (print "p1.d" (co_return none))))))

unfoldable pub env_p2 : Code
unfolding yield
env_p2 = once (once (once (once (co_return none))))
  where
    once : Code → Code
    once b = print "p2" (await_only (leaf (sleep yield)) b)

-- process_rewrite.cpp: `test`
unfoldable pub rewrite_test : Code
unfolding sequential_body both_of f print_priority
rewrite_test =
    call (sequential_body (single (composed (both_of (delay 10) (delay 30))) ∷ leaf (delay 5) ∷ []))
      (λ s. await_only (leaf (child s)) (
        print "now"
          (await_result f (λ x. print_value "result" x (print_priority (co_return none))))))
