-- ===== src/Examples/Subroutines.antt =====
-- src/examples/pitfall.cpp: the simulations `subroutines`, `subroutines2`, `subroutines3` and
-- `subroutines4`
use libcxxdes.Base.{ℕ, zero, suc, Option, none, some}
use libcxxdes.Core.Coroutine.{new_coroutine}
use libcxxdes.Core.Process.{
  Body, Leaf, Value, join_void, co_return, call, call_unique, await_then, inline_then, as_coroutine,
  single, composed, both_of,
}
use libcxxdes.Examples.Base.{Code, print, print_value, leaf, delay, await_only}

-- The value of a subroutine with one.
abbrev pub number_of : Option ℕ → ℕ
number_of r = elim r [ none ↦ 0 | some x ↦ x ]

-- `subroutines`
unfoldable pub f : Code
f = print "f" (co_return none)

unfoldable pub bar : Code
unfolding inline_then f
bar = print "barA" (inline_then f (λ u. print "barB" (co_return (some 10))))

unfoldable pub foo : Code
unfolding inline_then bar
foo = print "fooA" (
    inline_then bar (λ r.
      print_value "i" (number_of r)
        (print "fooB" (await_only (leaf (delay 10)) (co_return (some 20))))))

-- The `co_main` of `subroutines` and of `subroutines2`, with its `foo`.
unfoldable pub print_around : Code → Code
unfolding inline_then
print_around s =
    print "co_mainA now"
      (inline_then s (λ r. print_value "j" (number_of r) (print "co_mainB now" (co_return none))))

unfoldable pub subroutines_main : Code
unfolding print_around foo
subroutines_main = print_around foo

-- `subroutines2`
unfoldable pub foo2 : Code
foo2 = await_only (leaf (delay 600)) (await_only (leaf (delay 600)) (co_return (some 20)))

unfoldable pub subroutines2_main : Code
unfolding print_around foo2
subroutines2_main = print_around foo2

-- `subroutines3`
unfoldable pub foo3 : Code
foo3 = await_only (leaf (delay 50)) (co_return none)

unfoldable pub bar3 : Code
bar3 = await_only (leaf (delay 100)) (co_return none)

unfoldable pub subroutines3_main : Code
unfolding as_coroutine foo3 bar3 both_of
subroutines3_main = call_unique (as_coroutine foo3) (λ c. call bar3 (λ d.
    await_only
      (single (composed (both_of (join_void (new_coroutine c)) (join_void (new_coroutine d)))))
      (print "now" (co_return none))))

-- `subroutines4`
unfoldable pub bar4 : {G : Type 0} → ℕ → Body Leaf Value G
unfolding inline_then await_then
bar4 zero = co_return none
bar4 (suc i) = await_then (delay 100) (λ v. inline_then (bar4 i) (λ u. co_return none))
