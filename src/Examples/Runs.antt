-- ===== src/Examples/Runs.antt =====
-- Runs of src/examples: what they print, and at what times.
use libcxxdes.Base.{◌≡◌, refl, false, none, some, [], ◌∷◌}
use libcxxdes.Base.Int.{pos, negsuc, ◌-ℤ◌}
use libcxxdes.Core.Process.{co_return}
use libcxxdes.Examples.Base.{
  run_bound, bound, new_world, await_result, print_value, line, line_of, line_caught, line_signed,
  run_code, run_code_for, printed,
}
use libcxxdes.Examples.Exceptions.{
  nested_exceptions1, nested_exceptions2, stopping, asynchronous1, asynchronous2, from_f, from_h,
  from_co_main, from_coro2,
}
use libcxxdes.Core.Token.{inherit}
use libcxxdes.Examples.Priorities.{capture_main, debug_main, env_p1, env_p2, rewrite_test}
use libcxxdes.Examples.Values.{
  any_of_main, return_value_main, bug_main, lazy_timeout_main, lvalue_main, f,
}
use libcxxdes.Examples.Subroutines.{subroutines_main, subroutines2_main, subroutines3_main}

nested_exceptions1_run :
    nested_exceptions1 40
    ≡ some (
        line_caught "[h] Exception" (pos 0) from_f
        ∷ line_caught "[co_main1] Exception" (pos 0) from_h
        ∷ line_caught "[nestedExceptions1] Exception" (pos 0) from_co_main
        ∷ [])
unfolding nested_exceptions1
nested_exceptions1_run = refl

nested_exceptions2_run :
    nested_exceptions2 40
    ≡ some (
        line_caught "[h] Exception" (pos 0) from_f
        ∷ line_caught "[co_main2] Exception" (pos 0) from_h
        ∷ line_caught "[nestedExceptions2] Exception" (pos 0) from_co_main
        ∷ [])
unfolding nested_exceptions2
nested_exceptions2_run = refl

asynchronous1_run :
    asynchronous1 40
    ≡ some (
        line "coro done" (pos 1)
        ∷ line "coro2 $0" (pos 2)
        ∷ line_caught "[asynchronous] Exception" (pos 2) from_coro2
        ∷ [])
unfolding asynchronous1
asynchronous1_run = refl

asynchronous2_run :
    asynchronous2 40
    ≡ some (
        line "coro done" (pos 0)
        ∷ line "coro2 $0" (pos 2)
        ∷ line_caught "[asynchronous2] Exception" (pos 2) from_coro2
        ∷ [])
unfolding asynchronous2
asynchronous2_run = refl

stopping_run : printed (run_code_for stopping (pos 1) 40) ≡ some (false, line "hey!" (pos 0) ∷ [])
unfolding run_code_for stopping
stopping_run = refl

any_of_run :
    printed (run_code any_of_main 90)
    ≡ some (
      false,
      line "p1.a" (pos 0)
          ∷ line "p1.b" (pos 100)
          ∷ line "p1.c" (pos 120)
          ∷ line "p1.d" (pos 130)
          ∷ [],
    )
unfolding run_code any_of_main
any_of_run = refl

return_value_run :
    printed (run_code return_value_main 90)
    ≡ some (false, line_of "" (pos 0) 4 ∷ line_of "!" (pos 0) 4 ∷ line_of "value" (pos 10) 5 ∷ [])
unfolding run_code return_value_main
return_value_run = refl

bug_run : printed (run_code bug_main 90) ≡ some (false, line_of "return value" (pos 0) 10 ∷ [])
unfolding run_code bug_main
bug_run = refl

lazy_timeout_run :
    printed (run_code lazy_timeout_main 90)
    ≡ some (false, line "now" (pos 10) ∷ line "now" (pos 30) ∷ line "now" (pos 30) ∷ [])
unfolding run_code lazy_timeout_main
lazy_timeout_run = refl

lvalue_run :
    printed (run_code lvalue_main 90)
    ≡ some (
      false,
      line "now" (pos 10)
          ∷ line "now" (pos 15)
          ∷ line "f2" (pos 25)
          ∷ line "f1" (pos 25)
          ∷ line "after f1 && f2" (pos 25)
          ∷ line_of "after p" (pos 25) 1
          ∷ line_signed "time passed" (pos 35) (pos 9)
          ∷ [],
    )
unfolding run_code lvalue_main ◌-ℤ◌
lvalue_run = refl

subroutines_run :
    printed (run_code subroutines_main 90)
    ≡ some (
      false,
      line "co_mainA now" (pos 0)
          ∷ line "fooA" (pos 0)
          ∷ line "barA" (pos 0)
          ∷ line "f" (pos 0)
          ∷ line "barB" (pos 0)
          ∷ line_of "i" (pos 0) 10
          ∷ line "fooB" (pos 0)
          ∷ line_of "j" (pos 10) 20
          ∷ line "co_mainB now" (pos 10)
          ∷ [],
    )
unfolding run_code subroutines_main
subroutines_run = refl

subroutines3_run : printed (run_code subroutines3_main 90) ≡ some (false, line "now" (pos 100) ∷ [])
unfolding run_code subroutines3_main
subroutines3_run = refl

subroutines2_run :
    printed (run_code_for subroutines2_main (pos 500) 40)
    ≡ some (false, line "co_mainA now" (pos 0) ∷ [])
unfolding run_code_for subroutines2_main
subroutines2_run = refl

recursive_sum_run :
    printed (run_code (await_result f (λ x. print_value "result" x (co_return none))) 90)
    ≡ some (false, line_of "result" (pos 0) 65 ∷ [])
unfolding run_code f
recursive_sum_run = refl

capture_run :
    printed (run_code capture_main 90)
    ≡ some (
      false,
      line_of "x" (pos 0) 90
          ∷ line_signed "priority" (pos 0) (pos 0)
          ∷ line_of "return value" (pos 0) 90
          ∷ line_of "x" (pos 0) 66
          ∷ line_signed "priority" (pos 0) (pos 0)
          ∷ line_of "return value" (pos 5) 66
          ∷ line_of "x" (pos 5) 50
          ∷ line_signed "priority" (pos 5) (negsuc 4)
          ∷ line_of "x" (pos 5) 80
          ∷ line_signed "priority" (pos 5) (pos 0)
          ∷ line_of "return value" (pos 10) 80
          ∷ line_of "x" (pos 10) 80
          ∷ line_signed "priority" (pos 10) (pos 0)
          ∷ line_of "x" (pos 10) 50
          ∷ line_signed "priority" (pos 10) (pos 5)
          ∷ line_of "return value" (pos 15) 50
          ∷ line_of "return value" (pos 16) 50
          ∷ line "not done" (pos 16)
          ∷ line_of "x" (pos 17) 90
          ∷ line_signed "priority" (pos 17) (pos 0)
          ∷ line_of "return value" (pos 17) 90
          ∷ line "done" (pos 17)
          ∷ [],
    )
unfolding run_code capture_main
capture_run = refl

debug_run :
    printed (run_code debug_main 90)
    ≡ some (
      false,
      line_of "from" (pos 2) 2
          ∷ line_of "from" (pos 5) 2
          ∷ line_of "from" (pos 5) 1
          ∷ line_of "from" (pos 10) 1
          ∷ [],
    )
unfolding run_code debug_main
debug_run = refl

environment_run :
    run_bound 90 (bound env_p2 (negsuc 9_999) (bound env_p1 inherit new_world))
    ≡ some (
        line "p2" (pos 0)
        ∷ line "p2" (pos 0)
        ∷ line "p2" (pos 0)
        ∷ line "p2" (pos 0)
        ∷ line "p1.a" (pos 0)
        ∷ line "p1.b" (pos 0)
        ∷ line "p1.c" (pos 4)
        ∷ line "p1.d" (pos 8)
        ∷ [])
unfolding run_bound bound env_p1 env_p2
environment_run = refl

rewrite_run :
    run_bound 90 (bound rewrite_test (pos 200) new_world)
    ≡ some (
        line "now" (pos 35)
        ∷ line_of "result" (pos 35) 65
        ∷ line_signed "priority" (pos 35) (pos 200)
        ∷ [])
unfolding run_bound bound rewrite_test
rewrite_run = refl
