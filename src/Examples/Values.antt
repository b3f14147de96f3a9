-- ===== src/Examples/Values.antt =====
-- src/examples/any_of.cpp, return_value.cpp, return_value_and_timeout.cpp, lazy_timeout.cpp,
-- process_rewrite.cpp and compositions_lvalueref.cpp
use libcxxdes.Base.{ℕ, zero, suc, ◌+◌, none, some}
use libcxxdes.Base.Int.{pos, ◌-ℤ◌}
use libcxxdes.Core.Token.{inherit}
use libcxxdes.Core.Timeout.{ticks, lazy_timeout}
use libcxxdes.Core.Coroutine.{Coroutine, new_coroutine}
use libcxxdes.Core.Process.{
  Body, Value, number, deadline, sleep, later, join, join_void, co_return, call, look, await_then,
  single, composed, either_of, both_of,
}
use libcxxdes.Examples.Base.{
  Code, print, print_value, write, line_signed, leaf, delay, await_only, await_number, await_result,
}

-- any_of.cpp: `co_main`
unfoldable pub any_of_main : Code
unfolding either_of both_of
any_of_main = print "p1.a" (
    await_only
      (composed (
        either_of (composed (both_of (delay 1_000) (delay 5)))
          (composed (both_of (delay 100) (delay 1)))))
      (print "p1.b" (
        await_only (single (composed (both_of (delay 10) (delay 20)))) (
          print "p1.c" (
            await_only (single (composed (either_of (delay 10) (delay 20))))
              (print "p1.d" (co_return none)))))))

-- return_value.cpp: `foo`, `bar`, `test` and `co_main`
unfoldable pub foo : Code
foo = co_return (some 4)

unfoldable pub bar : ℕ → Code
bar other =
    await_number (leaf (join (new_coroutine other))) (λ r. print_value "" r (co_return (some r)))

unfoldable pub test : Code
test = await_only (leaf (delay 10)) (co_return (some 5))

unfoldable pub return_value_main : Code
unfolding foo bar test
return_value_main = call foo (λ c. await_result (bar c) (λ x.
    print_value "!" x (await_result test (λ result. print_value "value" result (co_return none)))))

-- return_value_and_timeout.cpp: `test` and `co_main`
unfoldable pub ten : Code
ten = co_return (some 10)

unfoldable pub bug_main : Code
unfolding ten both_of
bug_main = await_result ten (λ x. print_value "return value" x (
    call ten (λ c.
      await_only (single (composed (both_of (join (new_coroutine c)) (delay 10))))
        (co_return none))))

-- `auto t = co_await lazy_timeout(d);`
unfoldable pub await_lazy : ℕ → (Value → Code) → Code
await_lazy d k = await_then (leaf (later (lazy_timeout (ticks (pos d)) inherit))) k

-- `co_await t;`
unfoldable pub await_deadline : Value → Code → Code
await_deadline v b = elim v [ deadline t ↦ await_only (leaf (sleep t)) b | other ↦ b ]

-- lazy_timeout.cpp: `co_main`
unfoldable pub lazy_timeout_main : Code
unfolding await_lazy await_deadline
lazy_timeout_main = await_lazy 10 (λ t. await_deadline t (
    print "now" (
      await_lazy 10 (λ u.
        await_only (leaf (delay 20))
          (print "now" (await_deadline u (print "now" (co_return none))))))))

-- process_rewrite.cpp: `g` and `f`, where `aw` awaits a coroutine
unfoldable pub g : {C G : Type 0} → (Coroutine → C) → ℕ → Body C Value G
unfolding await_then
g aw zero = co_return (some 0)
g aw (suc k) = call (g aw k) (λ c. await_then (aw (new_coroutine c)) (λ v. elim v [
  | number x ↦ co_return (some (suc k + x))
  | other ↦ co_return (some (suc k + 0))
]))

unfoldable pub f : Code
unfolding g
f = await_result (g (λ p. leaf (join p)) 10) (λ x. co_return (some (x + 10)))

-- compositions_lvalueref.cpp: `p1`, `p2`, the lambdas `f1` and `f2`, and `co_main`
unfoldable pub p1 : Code
p1 = await_only (leaf (delay 10)) (co_return (some 1))

unfoldable pub p2 : Code
p2 = await_only (leaf (delay 5)) (co_return (some 1))

unfoldable pub f1 : ℕ → Code
f1 p = await_only (leaf (join (new_coroutine p))) (print "f1" (co_return none))

unfoldable pub f2 : ℕ → Code
f2 p = await_only (leaf (join (new_coroutine p))) (print "f2" (co_return none))

unfoldable pub lvalue_main : Code
unfolding p1 p2 f1 f2 both_of either_of
lvalue_main = first
  where
    fourth : Code
    fourth = call p1 (λ p.
        await_only (single (composed (either_of (join (new_coroutine p)) (delay 1)))) (
          look (λ t1 v.
            await_only (leaf (join (new_coroutine p)))
              (write (λ t. line_signed "time passed" t (t -ℤ t1)) (co_return none)))))

    third : Code
    third = call p1 (λ p. await_only (leaf (join (new_coroutine p))) (
        call (f1 p) (λ c. call (f2 p) (λ d.
          await_only
            (single
              (composed (both_of (join_void (new_coroutine c)) (join_void (new_coroutine d)))))
            (print "after f1 && f2" (
              await_only (leaf (join (new_coroutine p))) (
                await_number (leaf (join (new_coroutine p)))
                  (λ x. print_value "after p" x fourth))))))))

    second : Code
    second = call p1 (λ a. call p2 (λ b.
        await_only (single (composed (either_of (join (new_coroutine a)) (join (new_coroutine b)))))
          (print "now" third)))

    first : Code
    first = call p1 (λ a. call p2 (λ b.
        await_only (single (composed (both_of (join (new_coroutine a)) (join (new_coroutine b)))))
          (print "now" second)))
