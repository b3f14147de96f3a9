-- ===== src/Core/Process/Awaits.antt =====
-- The awaitables of the library as one type with the operations of the concept `awaitable`
-- (include/cxxdes/core/impl/awaitable.ipp): timeouts, coroutines, asynchronous starts, and the
-- compositions of awaitables.
use libcxxdes.Base.{ℕ, Bool, true, Option, none, some}
use libcxxdes.Base.Int.{ℤ}
use libcxxdes.Core.World.{World, Outcome, done, threw}
use libcxxdes.Core.Composition
use libcxxdes.Core.Composition.{Awaitable, AnyAll}
use libcxxdes.Core.Coroutine
use libcxxdes.Core.Coroutine.{async_bind, await_resume_tag}
use libcxxdes.Core.Timeout
use libcxxdes.Core.Timeout.{LazyTimeout, lazy_bind, lazy_resume}
use libcxxdes.Core.Process.Frames.{Result, returned, raised}
use libcxxdes.Core.Process.Drive.{Await}

-- What awaiting yields: nothing, the value of a coroutine, the timeout of a lazy one, or a handle.
pub data Value : Type 0 where
  nothing : Value
  number : ℕ → Value
  deadline : Timeout.Timeout → Value
  handle : Coroutine.Coroutine → Value

-- `join_void p` and `join p` await a `coroutine<void>` and a `coroutine<T>`; `launch p` is
-- `async(p)`.
pub data Leaf : Type 0 where
  sleep : Timeout.Timeout → Leaf
  later : LazyTimeout → Leaf
  join_void join launch : Coroutine.Coroutine → Leaf

-- An outcome with its first component wrapped.
unfoldable pub map_first :
    {A B S : Type 0} → (A → B) → Outcome (A × World S) → Outcome (B × World S)
map_first f (done (a, w)) = done (f a, w)
map_first f (threw e (a, w)) = threw e (f a, w)

unfoldable pub leaf_token : Leaf → Option ℕ
leaf_token (sleep a) = a.tkn
leaf_token (later a) = none
leaf_token (join_void p) = p.completion_token
leaf_token (join p) = p.completion_token
leaf_token (launch p) = none

module _ {S : Type 0} where
  unfoldable pub leaf_bind : Leaf → ℤ → World S → Outcome (Leaf × World S)
  unfolding map_first
  leaf_bind (sleep a) priority w = done (sleep (Timeout.await_bind a priority), w)
  leaf_bind (later a) priority w = done (later (lazy_bind a w), w)
  leaf_bind (join_void p) priority w = elim (Coroutine.await_bind p priority w) [
    | done v ↦ done (join_void p, v)
    | threw e v ↦ threw e (join_void p, v)
  ]
  leaf_bind (join p) priority w = elim (Coroutine.await_bind p priority w) [
    | done v ↦ done (join p, v)
    | threw e v ↦ threw e (join p, v)
  ]
  leaf_bind (launch p) priority w = map_first launch (async_bind p priority w)

  unfoldable pub leaf_ready : Leaf → World S → Bool × Leaf × World S
  leaf_ready (sleep a) w = (Timeout.await_ready a w, sleep a, w)
  leaf_ready (later a) w = (true, later a, w)
  leaf_ready (join_void p) w = (Coroutine.await_ready p w, join_void p, w)
  leaf_ready (join p) w = (Coroutine.await_ready p w, join p, w)
  leaf_ready (launch p) w = (true, launch p, w)

  unfoldable pub leaf_suspend : Leaf → Option ℕ → World S → Outcome (Leaf × World S)
  unfolding map_first
  leaf_suspend (sleep a) caller w =
      let (b, v) = Timeout.await_suspend a caller w in done (sleep b, v)
  leaf_suspend (later a) caller w = done (later a, w)
  leaf_suspend (join_void p) caller w = map_first join_void (Coroutine.await_suspend p caller w)
  leaf_suspend (join p) caller w = map_first join (Coroutine.await_suspend p caller w)
  leaf_suspend (launch p) caller w = done (launch p, w)

  -- `await_resume(no_return_value_tag)` of a coroutine.
  unfoldable pub resume_tag :
      (Coroutine.Coroutine → Leaf) → Coroutine.Coroutine → World S → Outcome (Leaf × World S)
  resume_tag f p w = elim (await_resume_tag p w) [
    | done q ↦ done (f q, w)
    | threw e q ↦ threw e (f q, w)
  ]

  unfoldable pub leaf_resume : Leaf → World S → Outcome (Leaf × World S)
  unfolding resume_tag
  leaf_resume (sleep a) w = done (sleep (Timeout.await_resume a), w)
  leaf_resume (later a) w = done (later a, w)
  leaf_resume (join_void p) w = resume_tag join_void p w
  leaf_resume (join p) w = resume_tag join p w
  leaf_resume (launch p) w = done (launch p, w)

  unfoldable pub leaf_ops : Awaitable S Leaf
  unfolding leaf_bind leaf_ready leaf_suspend leaf_token leaf_resume
  leaf_ops = record {
    child_bind = leaf_bind;
    child_ready = leaf_ready;
    child_suspend = leaf_suspend;
    child_token = leaf_token;
    child_resume = leaf_resume;
  }

  -- `await_resume()`, with its value
  unfoldable pub leaf_value : Leaf → World S → Result Value × World S
  leaf_value (sleep a) w = (returned nothing, w)
  leaf_value (later a) w = (returned (deadline (lazy_resume a)), w)
  leaf_value (join_void p) w = elim (await_resume_tag p w) [
    | done q ↦ (returned nothing, w)
    | threw e q ↦ (raised e, w)
  ]
  leaf_value (join p) w = elim (Coroutine.await_resume p w) [
    | done (q, none) ↦ (returned nothing, w)
    | done (q, some x) ↦ (returned (number x), w)
    | threw e r ↦ (raised e, w)
  ]
  leaf_value (launch p) w = (returned (handle p), w)

  unfoldable pub leaf_await : Await S Leaf Value
  unfolding leaf_ops leaf_value
  leaf_await = record { ops = leaf_ops; resume_value = leaf_value }

-- What is awaitable, or a composition of it.
pub data Layer (A : Type 0) : Type 0 where
  single : A → Layer A
  composed : AnyAll A → Layer A

module _ {S A : Type 0} (ops : Awaitable S A) where
  open ops use {child_bind, child_ready, child_suspend, child_token, child_resume}

  unfoldable pub layer_bind : Layer A → ℤ → World S → Outcome (Layer A × World S)
  unfolding map_first
  layer_bind (single a) p w = map_first single (child_bind a p w)
  layer_bind (composed x) p w = map_first composed (Composition.await_bind ops x p w)

  unfoldable pub layer_ready : Layer A → World S → Bool × Layer A × World S
  layer_ready (single a) w = let (r, b, v) = child_ready a w in (r, single b, v)
  layer_ready (composed x) w = let (r, y, v) = Composition.await_ready ops x w in (r, composed y, v)

  unfoldable pub layer_suspend : Layer A → Option ℕ → World S → Outcome (Layer A × World S)
  unfolding map_first
  layer_suspend (single a) caller w = map_first single (child_suspend a caller w)
  layer_suspend (composed x) caller w =
      map_first composed (Composition.await_suspend ops x caller w)

  unfoldable pub layer_token : Layer A → Option ℕ
  layer_token (single a) = child_token a
  layer_token (composed x) = x.tkn

  unfoldable pub layer_resume : Layer A → World S → Outcome (Layer A × World S)
  unfolding map_first
  layer_resume (single a) w = map_first single (child_resume a w)
  layer_resume (composed x) w = map_first composed (Composition.await_resume ops x w)

module _ {S A : Type 0} (aw : Await S A Value) where
  unfoldable pub layer_value : Layer A → World S → Result Value × World S
  layer_value (single a) w = aw.resume_value a w
  layer_value (composed x) w = elim (Composition.await_resume aw.ops x w) [
    | done (y, v) ↦ (returned nothing, v)
    | threw e (y, v) ↦ (raised e, v)
  ]

  unfoldable pub layer_await : Await S (Layer A) Value
  unfolding layer_bind layer_ready layer_suspend layer_token layer_resume layer_value
  layer_await = record {
    ops = record {
      child_bind = layer_bind aw.ops;
      child_ready = layer_ready aw.ops;
      child_suspend = layer_suspend aw.ops;
      child_token = layer_token aw.ops;
      child_resume = layer_resume aw.ops;
    };
    resume_value = layer_value;
  }
