-- ===== src/Core/World.antt =====
-- The state that the simulation core works on: the `environment` of
-- include/cxxdes/core/impl/environment.ipp with the objects that its pointers lead to. Pointers are
-- indices into tables; `program` stands for the variables of the simulated program, whose coroutine
-- bodies are not part of the library.
use libcxxdes.Base.{ℕ, suc, Bool, Option, List, ◌∷◌, update}
use libcxxdes.Base.Int.{ℤ}
use libcxxdes.Misc.Time.{Time}
use libcxxdes.Core.Token.{Token, Exception, token_comp}

-- The two instances of `any_all_helper`.
pub data Condition : Type 0 where
  any_of all_of : Condition

-- `custom_handler`
pub record Handler : Type 0 where
  pub condition : Condition
  pub total : ℕ
  pub remaining : ℕ
  pub completion_tkn : Option ℕ

-- `coroutine_data_`, with the completion tokens of the shared and of the unique variant.
pub record CoroutineData : Type 0 where
  pub env : Option ℕ
  pub call_stack : List ℕ
  pub should_continue : Bool
  pub priority : ℤ
  pub latency : ℤ
  pub parent : Option ℕ
  pub complete : Bool
  pub unique : Bool
  pub completion_tokens : List ℕ
  pub completion_token : Option ℕ
  pub return_value : Option ℕ

pub record World (S : Type 0) : Type 0 where
  pub id : ℕ
  pub now : ℤ
  pub used : Bool
  pub unit : Time
  pub prec : Time
  pub queue : List ℕ
  pub coroutines : List ℕ
  pub current : Option ℕ
  pub token : ℕ → Token
  pub token_count : ℕ
  pub handler : ℕ → Handler
  pub handler_count : ℕ
  pub coroutine : ℕ → CoroutineData
  pub program : S

-- What an operation ends in: normally, or by an exception that leaves it.
pub data Outcome (A : Type 0) : Type 0 where
  done : A → Outcome A
  threw : Exception → A → Outcome A

module _ {S : Type 0} where
  -- The comparator of the queue, which looks at the tokens behind the pointers.
  abbrev pub comp_of : World S → ℕ → ℕ → Bool
  comp_of w i j = token_comp (w.token i) (w.token j)

  -- `new token{…}`: the object and its address.
  unfoldable pub new_token : Token → World S → World S
  new_token t w = record w {
    token = update w.token w.token_count t;
    token_count = suc w.token_count;
  }

  -- `environment::schedule_token`
  unfoldable pub schedule_token : ℕ → World S → World S
  schedule_token tkn w = record w { used = Bool.true; queue = tkn ∷ w.queue }

  unfoldable pub set_token : ℕ → Token → World S → World S
  set_token tkn t w = record w { token = update w.token tkn t }

  unfoldable pub set_coroutine : ℕ → CoroutineData → World S → World S
  set_coroutine c d w = record w { coroutine = update w.coroutine c d }

  unfoldable pub set_handler : ℕ → Handler → World S → World S
  set_handler h d w = record w { handler = update w.handler h d }
