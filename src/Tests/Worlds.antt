-- ===== src/Tests/Worlds.antt =====
-- Worlds for the tests.
use libcxxdes.Base.{ℕ, ◌-◌, none, some, List, [], false}
use libcxxdes.Base.Int.{pos}
use libcxxdes.Misc.Time.{one_second}
use libcxxdes.Core.Token.{Token, Exception, program, inherit}
use libcxxdes.Core.World.{World, Condition, Handler, CoroutineData}

abbrev pub boom : Exception
boom = program 7

-- The token `i` is an event for coroutine 0 at the time 8 - i.
abbrev pub event_at : ℕ → Token
event_at i = record {
  time = pos (8 - i);
  priority = pos 0;
  coro_data = some 0;
  handler = none;
  eptr = none;
}

-- A shared coroutine that is bound to nothing, with a latency of 2.
abbrev pub idle_coroutine : CoroutineData
idle_coroutine = record {
  env = none;
  call_stack = [];
  should_continue = false;
  priority = inherit;
  latency = pos 2;
  parent = none;
  complete = false;
  unique = false;
  completion_tokens = [];
  completion_token = none;
  return_value = none;
}

abbrev pub armed_handler : Condition → ℕ → Handler
armed_handler c n = record { condition = c; total = n; remaining = n; completion_tkn = some 5 }

-- The world at time 1, with the given events in its queue; tokens from 9 on are new.
abbrev pub world_with : List ℕ → World (Unit {0})
world_with events = record {
  id = 0;
  now = pos 1;
  used = false;
  unit = one_second;
  prec = one_second;
  queue = events;
  coroutines = [];
  current = none;
  token = event_at;
  token_count = 9;
  handler = λ h. armed_handler Condition.all_of 2;
  handler_count = 1;
  coroutine = λ c. idle_coroutine;
  program = tt;
}
