-- ===== src/Core/Composition/Base.antt =====
-- include/cxxdes/core/impl/any_of.ipp: `any_all_helper::base`, over the awaitables that it
-- composes. impl/awaitable.ipp says what those offer; a child here has a state of type `C` and a
-- record of operations.
use libcxxdes.Base.{
  ℕ, suc, ◌-◌, Bool, true, false, Option, none, some, List, [], ◌∷◌, length, if◌then◌else◌,
}
use libcxxdes.Base.Int.{ℤ, pos}
use libcxxdes.Core.Token.{Token, resolve, inherit}
use libcxxdes.Core.World.{
  World, Condition, Handler, Outcome, done, threw, new_token, set_token, set_handler,
}
use libcxxdes.Core.Composition.Handler.{holds}

-- The concept `awaitable`
pub record Awaitable (S C : Type 0) : Type 0 where
  pub child_bind : C → ℤ → World S → Outcome (C × World S)
  pub child_ready : C → World S → Bool × C × World S
  pub child_suspend : C → Option ℕ → World S → Outcome (C × World S)
  pub child_token : C → Option ℕ
  pub child_resume : C → World S → Outcome (C × World S)

-- `tuple_based`, `range_based` and `vector_based` differ in how they store the children.
pub record AnyAll (C : Type 0) : Type 0 where
  pub condition : Condition
  pub children : List C
  pub remaining : ℕ
  pub ready : List Bool
  pub tkn : Option ℕ
  pub latency : ℤ
  pub priority : ℤ

-- `all_of(…)` and `any_of(…)`
abbrev pub compose : {C : Type 0} → Condition → List C → AnyAll C
compose condition children = record {
  condition = condition;
  children = children;
  remaining = 0;
  ready = [];
  tkn = none;
  latency = pos 0;
  priority = inherit;
}

-- The children that were not ready: `remaining_ -= (ready ? 1 : 0)` for each, from `total`.
unfoldable pub remaining_of : ℕ → List Bool → ℕ
remaining_of n [] = n
remaining_of n (r ∷ rs) = remaining_of (n - (if r then 1 else 0)) rs

module _ {S C : Type 0} where
  -- `derived().apply(f)`, up to the first exception.
  unfoldable pub apply :
      (C → World S → Outcome (C × World S)) → List C → World S → Outcome (List C × World S)
  apply f [] w = done ([], w)
  apply f (a ∷ cs) w = elim (f a w) [
    | threw e (a', w') ↦ threw e (a' ∷ cs, w')
    | done (a', w') ↦ elim (apply f cs w') [
      | threw e (bs, v) ↦ threw e (a' ∷ bs, v)
      | done (bs, v) ↦ done (a' ∷ bs, v)
    ]
  ]

module _ {S C : Type 0} (ops : Awaitable S C) where
  open ops use {child_bind, child_ready, child_suspend, child_token, child_resume}

  -- The loop of `await_ready`: the answers, and the children, which asking may change.
  unfoldable pub readiness : List C → World S → List Bool × List C × World S
  readiness [] w = ([], [], w)
  readiness (a ∷ cs) w =
      let (r, b, w') = child_ready a w in let (rs, bs, v) = readiness cs w' in (r ∷ rs, b ∷ bs, v)

  -- `await_bind`: the children inherit the priority of the composition.
  unfoldable pub await_bind : AnyAll C → ℤ → World S → Outcome (AnyAll C × World S)
  unfolding apply resolve
  await_bind x inherited w =
      let p = resolve x.priority inherited in
      elim (apply (λ a v. child_bind a p v) x.children w) [
        | done (cs, v) ↦ done (record x { priority = p; children = cs }, v)
        | threw e (cs, v) ↦ threw e (record x { priority = p; children = cs }, v)
      ]

  unfoldable pub await_ready : AnyAll C → World S → Bool × AnyAll C × World S
  unfolding readiness remaining_of holds
  await_ready x w =
      let total = length x.children in
      let (rs, cs, v) = readiness x.children w in
      let n = remaining_of total rs in
      (holds x.condition total n, record x { children = cs; remaining = n; ready = rs }, v)

  -- `if (a.await_token()) a.await_token()->handler = handler;`
  unfoldable pub attach : ℕ → C → World S → World S
  unfolding set_token
  attach h a w = elim (child_token a) [
    | none ↦ w
    | some t ↦ set_token t (record (w.token t) { handler = some h }) w
  ]

  -- The loop of `await_suspend` over the children that were not ready, up to the first exception.
  unfoldable pub suspend_all :
      ℕ → Option ℕ → List C → List Bool → World S → Outcome (List C × World S)
  unfolding attach
  suspend_all h caller [] rs w = done ([], w)
  suspend_all h caller (a ∷ cs) [] w = done (a ∷ cs, w)
  suspend_all h caller (a ∷ cs) (true ∷ rs) w = elim (suspend_all h caller cs rs w) [
    | done (bs, v) ↦ done (a ∷ bs, v)
    | threw e (bs, v) ↦ threw e (a ∷ bs, v)
  ]
  suspend_all h caller (a ∷ cs) (false ∷ rs) w = elim (child_suspend a caller w) [
    | threw e (b, v) ↦ threw e (b ∷ cs, v)
    | done (b, v) ↦ elim (suspend_all h caller cs rs (attach h b v)) [
      | done (bs, u) ↦ done (b ∷ bs, u)
      | threw e (bs, u) ↦ threw e (b ∷ bs, u)
    ]
  ]

  -- The output token and the handler that `await_suspend` makes.
  abbrev pub output_of : AnyAll C → Option ℕ → Token
  output_of x caller = record {
    time = x.latency;
    priority = x.priority;
    coro_data = caller;
    handler = none;
    eptr = none;
  }

  abbrev pub handler_of : AnyAll C → World S → Handler
  handler_of x w = record {
    condition = x.condition;
    total = length x.children;
    remaining = x.remaining;
    completion_tkn = some w.token_count;
  }

  unfoldable pub await_suspend : AnyAll C → Option ℕ → World S → Outcome (AnyAll C × World S)
  unfolding new_token set_handler suspend_all
  await_suspend x caller w =
      let v = set_handler w.handler_count (handler_of x w) (new_token (output_of x caller) w) in
      let u = record v { handler_count = suc w.handler_count } in
      let x' = record x { tkn = some w.token_count } in
      elim (suspend_all w.handler_count caller x.children x.ready u) [
        | done (cs, r) ↦ done (record x' { children = cs }, r)
        | threw e (cs, r) ↦ threw e (record x' { children = cs }, r)
      ]

  unfoldable pub await_resume : AnyAll C → World S → Outcome (AnyAll C × World S)
  unfolding apply
  await_resume x w = elim (apply child_resume x.children w) [
    | done (cs, v) ↦ done (record x { children = cs }, v)
    | threw e (cs, v) ↦ threw e (record x { children = cs }, v)
  ]
