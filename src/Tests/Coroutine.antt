-- ===== src/Tests/Coroutine.antt =====
-- include/cxxdes/core/impl/coroutine.ipp and impl/coroutine_data.ipp at concrete inputs.
use libcxxdes.Base.{
  Option, false, zero, suc, ℕ, ◌+◌, ◌-◌, ◌≡◌, refl, arith, true, none, some, [], ◌∷◌, count, In,
}
use libcxxdes.Base.Int.{pos, ◌+ℤ◌}
use libcxxdes.Core.World.{World, done, threw}
use libcxxdes.Core.Coroutine.{
  Coroutine, new_coroutine, bind, do_return, return_value, unhandled_exception, await_suspend,
  suspend, await_resume,
}
use libcxxdes.Core.Coroutine.Binding.{IsStarted, bind-IsStarted}
use libcxxdes.Core.Coroutine.Completion.{
  IsCompleted, do_return-IsCompleted, bind-unawaited, unhandled_exception-IsCompleted,
}
use libcxxdes.Core.Coroutine.Awaiting.{exception_reaches_waiter, value_reaches_waiter}
use libcxxdes.Core.Coroutine.{
  Subroutine, back, push_coro, await_suspend_sub, final_suspend_sub, clear_continue, resume,
}
use libcxxdes.Core.Coroutine.Calls.{
  FrameStep, pauses, calls, perform, Behaves, run_frame, ResumeEnds, back-snoc, call-returns,
  resume-Ends,
}
use libcxxdes.Tests.Worlds.{boom, idle_coroutine, world_with}

abbrev fresh_world : World (Unit {0})
fresh_world = world_with (2 ∷ [])

bind-IsStarted_example :
    (v : World (Unit {0})) × (bind 0 (pos 4) fresh_world ≡ done v)
    × IsStarted 0 (pos 4) fresh_world v
bind-IsStarted_example = bind-IsStarted 0 (pos 4) fresh_world refl

-- Coroutine 0 is awaited by the tokens 3 and 4.
abbrev awaited_world : World (Unit {0})
awaited_world = record fresh_world {
  coroutine = λ c. record idle_coroutine { completion_tokens = 3 ∷ 4 ∷ [] };
}

do_return-IsCompleted_example :
    (v : World (Unit {0})) × (do_return 0 awaited_world ≡ some v)
    × IsCompleted 0 (3 ∷ 4 ∷ []) awaited_world v
do_return-IsCompleted_example = do_return-IsCompleted 0 awaited_world refl (λ i. ground arith)

unhandled_exception-IsCompleted_example :
    (v : World (Unit {0})) × (unhandled_exception boom 0 awaited_world ≡ some v)
    × ((v.coroutine 0).complete ≡ true)
    × ((i : ℕ) → In i (3 ∷ 4 ∷ []) → (v.token i).eptr ≡ some boom)
    × ((i : ℕ) → count i v.queue ≡ count i (3 ∷ 4 ∷ []) + count i (2 ∷ []))
unhandled_exception-IsCompleted_example =
    unhandled_exception-IsCompleted boom 0 awaited_world refl (λ i. ground arith)

abbrev unawaited_world : World (Unit {0})
unawaited_world = record fresh_world { coroutine = λ c. record idle_coroutine { unique = true } }

bind-unawaited_example :
    (v : World (Unit {0})) × (bind 0 (pos 4) unawaited_world ≡ done v)
    × (do_return 0 v ≡ none)
    × (unhandled_exception boom 0 v ≡ none)
bind-unawaited_example = bind-unawaited 0 (pos 4) boom unawaited_world refl refl refl

-- A waiter 1 on coroutine 0.
abbrev handle_1 : Coroutine
handle_1 = (suspend (new_coroutine 0) (some 1) fresh_world).0

abbrev world_1 : World (Unit {0})
world_1 = (suspend (new_coroutine 0) (some 1) fresh_world).1

exception_reaches_waiter_example :
    (u : World (Unit {0})) × (unhandled_exception boom handle_1.coro_data world_1 ≡ some u)
    × (await_resume handle_1 u ≡ threw boom (record handle_1 { completion_token = none }, none))
unfolding await_suspend
exception_reaches_waiter_example =
    exception_reaches_waiter (new_coroutine 0) (some 1) fresh_world refl (λ i. ground arith) refl
      {p' = handle_1} {v = world_1} refl boom

value_reaches_waiter_example :
    (u : World (Unit {0})) × (return_value 42 handle_1.coro_data world_1 ≡ some u)
    × (count 9 u.queue ≡ 1)
    × ((u.token 9).coro_data ≡ some 1)
    × ((u.token 9).time ≡ pos 0 +ℤ pos 1)
    × (await_resume handle_1 u ≡ done (record handle_1 { completion_token = none }, some 42))
unfolding await_suspend
value_reaches_waiter_example =
    value_reaches_waiter (new_coroutine 0) (some 1) fresh_world refl (λ i. ground arith) refl
      {p' = handle_1} {v = world_1} refl 42

-- A frame 3 that coroutine 0 calls, and a program whose frames each run for one round.
abbrev callee : Subroutine
callee = record { frame = some 3; finished = false; coro_data = 0; eptr = none; ret = none }

abbrev calling_world : World (Unit {0})
calling_world = push_coro 0 3 fresh_world

call-returns_example :
    (back (calling_world.coroutine 0).call_stack ≡ some 3)
    × ((calling_world.coroutine 0).should_continue ≡ true)
    × (((final_suspend_sub callee (clear_continue 0 calling_world)).coroutine 0).call_stack ≡ [])
    × (((final_suspend_sub callee (clear_continue 0 calling_world)).coroutine 0).should_continue
        ≡ true)
unfolding await_suspend_sub push_coro clear_continue
call-returns_example =
    call-returns callee fresh_world calling_world (clear_continue 0 calling_world) refl refl

-- Frame 0 calls frame 1, and frame 1 frame 2; every other frame pauses.
abbrev subroutine_of : ℕ → Subroutine
subroutine_of f = record {
  frame = some f;
  finished = false;
  coro_data = 0;
  eptr = none;
  ret = none;
}

abbrev descent : ℕ → World (Unit {0}) → FrameStep (Unit {0})
descent zero w = calls (subroutine_of 1) w
descent (suc zero) w = calls (subroutine_of 2) w
descent (suc (suc f)) w = pauses w

-- The calls that are left below a top frame.
abbrev calls_below : Option ℕ → ℕ
calls_below none = 0
calls_below (some f) = 2 - f

abbrev calls_left : World (Unit {0}) → ℕ
calls_left w = calls_below (back (w.coroutine 0).call_stack)

descent-Behaves :
    (f : ℕ) (w : World (Unit {0}))
    → back (w.coroutine 0).call_stack ≡ some f
    → Behaves 0 calls_left (calls_left w) (clear_continue 0 w) (descent f (clear_continue 0 w))
unfolding perform await_suspend_sub push_coro clear_continue
descent-Behaves zero w top =
    (refl, λ e. ground arith, ground (arith, top, back-snoc (w.coroutine 0).call_stack 1))
descent-Behaves (suc zero) w top =
    (refl, λ e. ground arith, ground (arith, top, back-snoc (w.coroutine 0).call_stack 2))
descent-Behaves (suc (suc f)) w top = refl

abbrev started_world : World (Unit {0})
started_world = push_coro 0 0 fresh_world

resume-Ends_example :
    ResumeEnds descent 0 started_world (resume (run_frame descent 0) 3 0 started_world)
unfolding push_coro back
resume-Ends_example = resume-Ends descent 0 calls_left descent-Behaves 3 started_world (omega arith)
