-- ===== src/Core/Coroutine/Stack.antt =====
-- include/cxxdes/core/impl/coroutine_data.ipp: the call stack, and `resume`; impl/subroutine.ipp.
-- `run_frame` stands for `std::coroutine_handle::resume` of a frame of a coroutine.
use libcxxdes.Base.{ℕ, zero, suc, Bool, true, false, Option, none, some, List, [], ◌∷◌, ◌++◌}
use libcxxdes.Core.Token.{Exception}
use libcxxdes.Core.World.{World, Outcome, done, threw, set_coroutine}

-- `call_stack_.back()`, and the stack without it.
unfoldable pub back : List ℕ → Option ℕ
back [] = none
back (f ∷ []) = some f
back (f ∷ g ∷ fs) = back (g ∷ fs)

unfoldable pub pop_back : List ℕ → List ℕ
pop_back [] = []
pop_back (f ∷ []) = []
pop_back (f ∷ g ∷ fs) = f ∷ pop_back (g ∷ fs)

-- `subroutine` with its promise; a value is a number.
pub record Subroutine : Type 0 where
  pub frame : Option ℕ
  pub finished : Bool
  pub coro_data : ℕ
  pub eptr : Option Exception
  pub ret : Option ℕ

-- How a call of `resume` ends; there is no frame to run only on an empty stack.
pub data Resumed (S : Type 0) : Type 0 where
  suspended : World S → Resumed S
  no_frame : World S → Resumed S
  out_of_fuel : Resumed S

unfoldable pub await_ready_sub : Subroutine → Bool
await_ready_sub s = elim s.frame [ none ↦ true | some f ↦ s.finished ]

unfoldable pub await_resume_sub : Subroutine → Outcome (Option ℕ)
await_resume_sub s = elim s.eptr [ some e ↦ threw e none | none ↦ done s.ret ]

unfoldable pub sub_unhandled_exception : Exception → Subroutine → Subroutine
sub_unhandled_exception e s = record s { eptr = some e }

unfoldable pub sub_return_value : ℕ → Subroutine → Subroutine
sub_return_value x s = record s { ret = some x }

-- `await_transform` of a subroutine.
unfoldable pub bind_coroutine : ℕ → Subroutine → Subroutine
bind_coroutine c s = record s { coro_data = c }

module _ {S : Type 0} where
  -- `push_coro_` and `pop_coro_`
  unfoldable pub push_coro : ℕ → ℕ → World S → World S
  unfolding set_coroutine
  push_coro c f w =
      let d = w.coroutine c in
      set_coroutine c (record d { call_stack = d.call_stack ++ f ∷ []; should_continue = true }) w

  unfoldable pub pop_coro : ℕ → World S → World S
  unfolding set_coroutine pop_back
  pop_coro c w =
      let d = w.coroutine c in
      set_coroutine c (record d { call_stack = pop_back d.call_stack; should_continue = true }) w

  -- `subroutine::await_suspend`; the promise's handle is never null there.
  unfoldable pub await_suspend_sub : Subroutine → World S → Option (World S)
  unfolding push_coro
  await_suspend_sub s w = elim s.frame [ none ↦ none | some f ↦ some (push_coro s.coro_data f w) ]

  -- The final suspension of a subroutine.
  unfoldable pub final_suspend_sub : Subroutine → World S → World S
  unfolding pop_coro
  final_suspend_sub s w = pop_coro s.coro_data w

  -- `should_continue_ = false`
  unfoldable pub clear_continue : ℕ → World S → World S
  unfolding set_coroutine
  clear_continue c w = set_coroutine c (record (w.coroutine c) { should_continue = false }) w

module _ {S : Type 0} (run_frame : ℕ → World S → World S) where
  -- One round of the loop of `resume`: the top frame runs.
  unfoldable pub resume_round : ℕ → World S → Option (World S)
  unfolding back clear_continue
  resume_round c w = elim (back (w.coroutine c).call_stack) [
    | none ↦ none
    | some f ↦ some (run_frame f (clear_continue c w))
  ]

  -- `resume`
  unfoldable pub resume : ℕ → ℕ → World S → Resumed S
  unfolding resume_round
  resume zero c w = out_of_fuel
  resume (suc fuel) c w = elim (resume_round c w) [
    | none ↦ no_frame w
    | some v ↦ elim (v.coroutine c).should_continue [ false ↦ suspended v | true ↦ resume fuel c v ]
  ]
