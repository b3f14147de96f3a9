-- ===== src/Core/Process/Drive.antt =====
-- include/cxxdes/core/impl/await_transform.ipp and impl/coroutine.ipp: a body runs until it
-- suspends.
use libcxxdes.Base.{ℕ, zero, suc, Bool, true, false, Option, none, some, [], update}
use libcxxdes.Base.Int.{pos}
use libcxxdes.Core.Token.{Exception, inherit}
use libcxxdes.Core.World.{World, CoroutineData, done, threw, set_coroutine}
use libcxxdes.Core.Composition.{Awaitable}
use libcxxdes.Core.Coroutine.{
  push_coro, new_coroutine, set_priority, set_latency, do_return, return_value, unhandled_exception,
}
use libcxxdes.Core.Process.Frames.{
  Result, raised, Body, co_return, co_throw, co_await, act, look, this_coroutine, inspect, call,
  call_unique, loop, loop_round, with_priority, with_latency, Frame, fresh, suspended_on, gone,
  Program,
}

-- An awaitable with the result that `co_await` has.
pub record Await (S C V : Type 0) : Type 0 where
  pub ops : Awaitable S C
  pub resume_value : C → World S → Result V × World S

-- The state that the promise's constructor makes.
abbrev pub new_coroutine_data : Bool → CoroutineData
new_coroutine_data only = record {
  env = none;
  call_stack = [];
  should_continue = false;
  priority = inherit;
  latency = pos 0;
  parent = none;
  complete = false;
  unique = only;
  completion_tokens = [];
  completion_token = none;
  return_value = none;
}

module _ {C V G : Type 0} where
  unfoldable pub set_frame : ℕ → Frame C V G → World (Program C V G) → World (Program C V G)
  set_frame f b w = record w { program = record w.program { frames = update w.program.frames f b } }

  unfoldable pub crash : World (Program C V G) → World (Program C V G)
  crash w = record w { program = record w.program { crashed = true } }

  unfoldable pub get_stuck : World (Program C V G) → World (Program C V G)
  get_stuck w = record w { program = record w.program { stuck = true } }

  unfoldable pub set_shared : G → World (Program C V G) → World (Program C V G)
  set_shared g w = record w { program = record w.program { shared = g } }

  -- A call of a coroutine function: the promise, its state, and the frame on its call stack.
  unfoldable pub create : Bool → Body C V G → World (Program C V G) → World (Program C V G)
  unfolding set_frame set_coroutine push_coro
  create only b w =
      let n = w.program.next_frame in
      push_coro n n (
        set_coroutine n (new_coroutine_data only) (record w {
          program = record w.program {
            frames = update w.program.frames n (fresh b);
            next_frame = suc n;
          };
        }))

  -- The end of a body: the frame is destroyed, as `final_suspend` does not suspend.
  unfoldable pub end_frame :
      ℕ → Option (World (Program C V G)) → World (Program C V G) → World (Program C V G)
  unfolding set_frame crash
  end_frame c o w = elim o [ none ↦ crash w | some v ↦ set_frame c gone v ]

  unfoldable pub finish_return : ℕ → Option ℕ → World (Program C V G) → World (Program C V G)
  unfolding end_frame
  finish_return c r w = elim r [
    | none ↦ end_frame c (do_return c w) w
    | some x ↦ end_frame c (return_value x c w) w
  ]

  unfoldable pub finish_throw : ℕ → Exception → World (Program C V G) → World (Program C V G)
  unfolding end_frame
  finish_throw c e w = end_frame c (unhandled_exception e c w) w

module _ {C V G : Type 0} (aw : Await (Program C V G) C V) where
  open aw use {ops, resume_value}
  open ops use {child_bind, child_ready, child_suspend}

  -- What a `co_await` comes to: it suspends in a world, or yields a result in one.
  pub data Awaited : Type 0 where
    suspends : C → World (Program C V G) → Awaited
    yields : Result V → World (Program C V G) → Awaited

  -- `co_await a` in the coroutine `c`: `await_transform` binds with the coroutine's priority and
  -- notes the running coroutine; `awaitable_wrapper` asks whether to suspend.
  unfoldable pub await_in : ℕ → C → World (Program C V G) → Awaited
  await_in c a w = elim (child_bind a (w.coroutine c).priority w) [
    | threw e (a', w') ↦ yields (raised e) w'
    | done (a', w') ↦
        let (ready, b, v) = child_ready a' w' in
        elim ready [
          | true ↦ let (r, u) = resume_value b v in yields r u
          | false ↦ elim (child_suspend b w.current v) [
            | threw e (b', u) ↦ yields (raised e) u
            | done (b', u) ↦ suspends b' u
          ]
        ]
  ]

  module _ (jump : ℕ → Body C V G → World (Program C V G) → World (Program C V G)) where
    -- The body runs until it suspends or ends; `jump` runs the rounds of loops.
    unfoldable pub drive_at : ℕ → Body C V G → World (Program C V G) → World (Program C V G)
    unfolding await_in set_frame finish_return finish_throw set_shared create set_priority
        set_latency loop_round
    drive_at c (co_return r) w = finish_return c r w
    drive_at c (co_throw e) w = finish_throw c e w
    drive_at c (co_await a k) w = elim (await_in c a w) [
      | suspends b v ↦ set_frame c (suspended_on b k) v
      | yields r v ↦ drive_at c (k r) v
    ]
    drive_at c (act f b) w = drive_at c b (set_shared (f w.now w.program.shared) w)
    drive_at c (look k) w = drive_at c (k w.now w.program.shared) w
    drive_at c (this_coroutine k) w = drive_at c (k c) w
    drive_at c (inspect d k) w = drive_at c (k (w.coroutine d)) w
    drive_at c (call b k) w = drive_at c (k w.program.next_frame) (create false b w)
    drive_at c (call_unique b k) w = drive_at c (k w.program.next_frame) (create true b w)
    drive_at c (loop f s k) w = jump c (loop_round f s k) w
    drive_at c (with_priority d p b) w = drive_at c b (set_priority p (new_coroutine d) w)
    drive_at c (with_latency d l b) w = drive_at c b (set_latency l (new_coroutine d) w)

  -- At most `n` rounds of loops are run.
  unfoldable pub jump_for : ℕ → ℕ → Body C V G → World (Program C V G) → World (Program C V G)
  unfolding drive_at get_stuck
  jump_for zero c b w = get_stuck w
  jump_for (suc n) c b w = drive_at (jump_for n) c b w

  unfoldable pub drive : ℕ → Body C V G → World (Program C V G) → World (Program C V G)
  unfolding drive_at jump_for
  drive c b w = drive_at (jump_for w.program.rounds) c b w

  -- `coroutine_handle::resume` of the frame of coroutine `c`.
  unfoldable pub resume_frame : ℕ → World (Program C V G) → World (Program C V G)
  unfolding drive crash
  resume_frame c w = elim (w.program.frames c) [
    | fresh b ↦ drive c b w
    | suspended_on a k ↦ let (r, v) = resume_value a w in drive c (k r) v
    | gone ↦ crash w
  ]
