-- ===== src/Core/Process/Frames.antt =====
-- The body of a coroutine, as far as the library sees it: a tree of what it awaits, calls and
-- writes.
use libcxxdes.Base.{ℕ, Bool, Option, none, some}
use libcxxdes.Base.Int.{ℤ}
use libcxxdes.Core.Token.{Exception}
use libcxxdes.Core.World.{CoroutineData}

-- What a `co_await` yields to the body: a value, or an exception that is thrown there.
pub data Result (V : Type 0) : Type 0 where
  returned : V → Result V
  raised : Exception → Result V

-- `C` are the awaitables, `V` the values that awaiting yields, `G` the variables of the program.
-- An action reads the clock and changes the variables; a call of a coroutine function makes a
-- coroutine, and goes on with its state, whose priority and latency it may set; `call_unique` is
-- one of a coroutine function that returns a `unique_coroutine`. `this_coroutine` is the tag of
-- that name, and `inspect` reads the state of a coroutine through a handle. In `loop f s k`, `f s`
-- is the first round of a loop: it returns the state of the next one, or `none` where the loop is
-- over; `k` follows the loop, and gets the exception that leaves it.
pub data Body (C V G : Type 0) : Type 0 where
  co_return : Option ℕ → Body C V G
  co_throw : Exception → Body C V G
  co_await : C → (Result V → Body C V G) → Body C V G
  act : (ℤ → G → G) → Body C V G → Body C V G
  look : (ℤ → G → Body C V G) → Body C V G
  this_coroutine : (ℕ → Body C V G) → Body C V G
  inspect : ℕ → (CoroutineData → Body C V G) → Body C V G
  call call_unique : Body C V G → (ℕ → Body C V G) → Body C V G
  loop : (ℕ → Body C V G) → ℕ → (Result (Option ℕ) → Body C V G) → Body C V G
  with_priority with_latency : ℕ → ℤ → Body C V G → Body C V G

-- A coroutine frame: not started, suspended on an awaitable, or destroyed.
pub data Frame (C V G : Type 0) : Type 0 where
  fresh : Body C V G → Frame C V G
  suspended_on : C → (Result V → Body C V G) → Frame C V G
  gone : Frame C V G

-- The program's part of the state. `crashed`: a null pointer has been dereferenced. `rounds`: how
-- many rounds of loops a resumption may run before it is given up, which `stuck` notes.
pub record Program (C V G : Type 0) : Type 0 where
  pub frames : ℕ → Frame C V G
  pub next_frame : ℕ
  pub shared : G
  pub crashed : Bool
  pub rounds : ℕ
  pub stuck : Bool

module _ {C V G : Type 0} where
  -- A call of a subroutine with the body `s`, and what follows it: the same coroutine goes on.
  unfoldable pub inline : Body C V G → (Result (Option ℕ) → Body C V G) → Body C V G
  inline (co_return r) k = k (returned r)
  inline (co_throw e) k = k (raised e)
  inline (co_await a f) k = co_await a (λ r. inline (f r) k)
  inline (act f b) k = act f (inline b k)
  inline (look f) k = look (λ t g. inline (f t g) k)
  inline (this_coroutine f) k = this_coroutine (λ c. inline (f c) k)
  inline (inspect d f) k = inspect d (λ x. inline (f x) k)
  inline (call b f) k = call b (λ c. inline (f c) k)
  inline (call_unique b f) k = call_unique b (λ c. inline (f c) k)
  inline (loop f s b) k = loop f s (λ r. inline (b r) k)
  inline (with_priority d p b) k = with_priority d p (inline b k)
  inline (with_latency d l b) k = with_latency d l (inline b k)

  -- What comes behind a round of a loop, and a round.
  unfoldable pub loop_next :
      (ℕ → Body C V G) → (Result (Option ℕ) → Body C V G) → Result (Option ℕ) → Body C V G
  loop_next f k (returned none) = k (returned none)
  loop_next f k (returned (some s)) = loop f s k
  loop_next f k (raised e) = k (raised e)

  unfoldable pub loop_round : (ℕ → Body C V G) → ℕ → (Result (Option ℕ) → Body C V G) → Body C V G
  unfolding inline loop_next
  loop_round f s k = inline (f s) (loop_next f k)
