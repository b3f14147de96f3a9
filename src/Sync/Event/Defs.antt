-- ===== src/Sync/Event/Defs.antt =====
-- include/cxxdes/sync/event.hpp
use libcxxdes.Base.{ℕ, Option, none, some, List, [], ◌∷◌, ◌++◌}
use libcxxdes.Base.Int.{ℤ, pos}
use libcxxdes.Core.Token.{Token, resolve, inherit}
use libcxxdes.Core.World.{World, new_token}
use libcxxdes.Core.Schedule.{schedule_all}

pub record Event : Type 0 where
  pub tokens : List ℕ

abbrev pub new_event : Event
new_event = record { tokens = [] }

-- `wait_awaitable`
pub record Wait : Type 0 where
  pub latency : ℤ
  pub priority : ℤ
  pub tkn : Option ℕ

unfoldable pub wait : ℤ → ℤ → Wait
wait latency priority = record { latency = latency; priority = priority; tkn = none }

-- `wait_awaitable::await_bind`
unfoldable pub await_bind : Wait → ℤ → Wait
unfolding resolve
await_bind a inherited = record a { priority = resolve a.priority inherited }

module _ {S : Type 0} where
  -- `wait_awaitable::await_suspend`
  unfoldable pub await_suspend : Event → Wait → Option ℕ → World S → Event × Wait × World S
  unfolding new_token
  await_suspend evt a caller w =
      let t : Token = record {
        time = a.latency;
        priority = a.priority;
        coro_data = caller;
        handler = none;
        eptr = none;
      } in
      (
        record evt { tokens = evt.tokens ++ w.token_count ∷ [] },
        record a { tkn = some w.token_count },
        new_token t w,
      )

  -- `wake_awaitable::await_ready`, which is the whole of `co_await evt.wake()`.
  unfoldable pub wake : Event → World S → Event × World S
  unfolding schedule_all
  wake evt w = (record evt { tokens = [] }, schedule_all evt.tokens w)

  -- `co_await evt.wait()` in the coroutine `c`, up to its suspension: bound with the coroutine's
  -- priority.
  unfoldable pub wait_in : ℕ → Event → World S → Event × World S
  unfolding wait await_bind await_suspend
  wait_in c evt w =
      let (evt', a, w') =
        await_suspend evt (await_bind (wait (pos 0) inherit) (w.coroutine c).priority) (some c) w in
      (evt', w')
