-- ===== src/Core/Process/Clock/Layers.antt =====
-- include/cxxdes/core/impl/any_of.ipp: awaiting a composition keeps `now_` if awaiting its
-- children does.
use libcxxdes.Base.{
  ℕ, suc, ◌≡◌, refl, ◌∙◌, Bool, true, false, inl, inr, Option, List, [], ◌∷◌, arith,
}
use libcxxdes.Base.Int.{ℤ}
use libcxxdes.Core.Token.{resolve}
use libcxxdes.Core.World.{World, Outcome, new_token, set_handler}
use libcxxdes.Core.Composition
use libcxxdes.Core.Composition.{Awaitable, AnyAll, apply, readiness, suspend_all, attach}
use libcxxdes.Core.Process.Drive.{Await}
use libcxxdes.Core.Process.Awaits.{
  Value, Layer, single, composed, layer_bind, layer_ready, layer_suspend, layer_resume, layer_value,
  layer_await,
}
use libcxxdes.Core.Process.Clock.Defs.{world_in, KeepsNow, AwaitKeepsNow, Outcome-cases}
use libcxxdes.Core.Process.Clock.Leaves.{map_first-world}

module _ {S C : Type 0} where
  apply-now :
      (f : C → World S → Outcome (C × World S))
      → ((a : C) (w : World S) → (world_in (f a w)).now ≡ w.now)
      → (cs : List C) (w : World S) → (world_in (apply f cs w)).now ≡ w.now
  unfolding apply
  apply-now f keeps [] w = refl
  apply-now f keeps (a ∷ cs) w = elim (Outcome-cases (f a w)) [
    | inr (x, (b, v), e) ↦ ground (arith, e, keeps a w)
    | inl ((b, v), e) ↦ elim (Outcome-cases (apply f cs v)) [
      | inl ((bs, u), k) ↦ ground (arith, e, k, keeps a w, apply-now f keeps cs v)
      | inr (y, (bs, u), k) ↦ ground (arith, e, k, keeps a w, apply-now f keeps cs v)
    ]
  ]

module _ {S C : Type 0} (ops : Awaitable S C) (keeps : KeepsNow ops) where
  open keeps use {bind_now, ready_now, suspend_now, resume_now}

  readiness-now : (cs : List C) (w : World S) → (readiness ops cs w).2.now ≡ w.now
  unfolding readiness
  readiness-now [] w = refl
  readiness-now (a ∷ cs) w = readiness-now cs _ ∙ ready_now a w

  attach-now : (h : ℕ) (a : C) (w : World S) → (attach ops h a w).now ≡ w.now
  unfolding attach
  attach-now h a w = ground arith

  suspend_all-now :
      (h : ℕ) (caller : Option ℕ) (cs : List C) (rs : List Bool) (w : World S)
      → (world_in (suspend_all ops h caller cs rs w)).now ≡ w.now
  unfolding suspend_all
  suspend_all-now h caller [] rs w = refl
  suspend_all-now h caller (a ∷ cs) [] w = refl
  suspend_all-now h caller (a ∷ cs) (true ∷ rs) w =
      elim (Outcome-cases (suspend_all ops h caller cs rs w)) [
        | inl ((bs, v), e) ↦ ground (arith, e, suspend_all-now h caller cs rs w)
        | inr (x, (bs, v), e) ↦ ground (arith, e, suspend_all-now h caller cs rs w)
      ]
  suspend_all-now h caller (a ∷ cs) (false ∷ rs) w =
      elim (Outcome-cases (ops.child_suspend a caller w)) [
        | inr (x, (b, v), e) ↦ ground (arith, e, suspend_now a caller w)
        | inl ((b, v), e) ↦
            elim (Outcome-cases (suspend_all ops h caller cs rs (attach ops h b v))) [
              | inl ((bs, u), k) ↦ ground (
                arith,
                e,
                k,
                suspend_now a caller w,
                attach-now h b v,
                suspend_all-now h caller cs rs (attach ops h b v),
              )
              | inr (x, (bs, u), k) ↦ ground (
                arith,
                e,
                k,
                suspend_now a caller w,
                attach-now h b v,
                suspend_all-now h caller cs rs (attach ops h b v),
              )
            ]
      ]

  composition_bind-now :
      (x : AnyAll C) (p : ℤ) (w : World S)
      → (world_in (Composition.await_bind ops x p w)).now ≡ w.now
  unfolding Composition.await_bind
  composition_bind-now x p w =
      elim (Outcome-cases (apply (λ a v. ops.child_bind a (resolve x.priority p) v) x.children w)) [
        | inl ((cs, v), e) ↦ ground (
          arith,
          e,
          apply-now (λ a v. ops.child_bind a (resolve x.priority p) v) (λ a v. bind_now a _ v)
              x.children w,
        )
        | inr (y, (cs, v), e) ↦ ground (
          arith,
          e,
          apply-now (λ a v. ops.child_bind a (resolve x.priority p) v) (λ a v. bind_now a _ v)
              x.children w,
        )
      ]

  composition_ready-now :
      (x : AnyAll C) (w : World S) → (Composition.await_ready ops x w).2.now ≡ w.now
  unfolding Composition.await_ready
  composition_ready-now x w = readiness-now x.children w

  composition_resume-now :
      (x : AnyAll C) (w : World S) → (world_in (Composition.await_resume ops x w)).now ≡ w.now
  unfolding Composition.await_resume
  composition_resume-now x w = elim (Outcome-cases (apply ops.child_resume x.children w)) [
    | inl ((cs, v), e) ↦ ground (arith, e, apply-now ops.child_resume resume_now x.children w)
    | inr (y, (cs, v), e) ↦ ground (arith, e, apply-now ops.child_resume resume_now x.children w)
  ]

  composition_suspend-now :
      (x : AnyAll C) (caller : Option ℕ) (w : World S)
      → (world_in (Composition.await_suspend ops x caller w)).now ≡ w.now
  unfolding Composition.await_suspend
  composition_suspend-now x caller w =
      elim (Outcome-cases (suspend_all ops w.handler_count caller x.children x.ready made)) [
        | inl ((cs, v), e) ↦
            ground (arith, e, suspend_all-now w.handler_count caller x.children x.ready made)
        | inr (y, (cs, v), e) ↦
            ground (arith, e, suspend_all-now w.handler_count caller x.children x.ready made)
      ]
    where
      made : World S
      made =
          record (set_handler w.handler_count (Composition.handler_of ops x w)
            (new_token (Composition.output_of ops x caller) w)) {
              handler_count = suc w.handler_count;
            }

module _ {S A : Type 0} (aw : Await S A Value) (keeps : AwaitKeepsNow aw) where
  open keeps use {ops_now, value_now}
  open ops_now use {bind_now, ready_now, suspend_now, resume_now}

  layer_bind-now :
      (a : Layer A) (p : ℤ) (w : World S) → (world_in (layer_bind aw.ops a p w)).now ≡ w.now
  unfolding layer_bind
  layer_bind-now (single a) p w = rw map_first-world (bind_now a p w)
  layer_bind-now (composed x) p w = rw map_first-world (composition_bind-now aw.ops ops_now x p w)

  layer_ready-now : (a : Layer A) (w : World S) → (layer_ready aw.ops a w).2.now ≡ w.now
  unfolding layer_ready
  layer_ready-now (single a) w = ready_now a w
  layer_ready-now (composed x) w = composition_ready-now aw.ops ops_now x w

  layer_suspend-now :
      (a : Layer A) (caller : Option ℕ) (w : World S)
      → (world_in (layer_suspend aw.ops a caller w)).now ≡ w.now
  unfolding layer_suspend
  layer_suspend-now (single a) caller w = rw map_first-world (suspend_now a caller w)
  layer_suspend-now (composed x) caller w =
      rw map_first-world (composition_suspend-now aw.ops ops_now x caller w)

  layer_resume-now : (a : Layer A) (w : World S) → (world_in (layer_resume aw.ops a w)).now ≡ w.now
  unfolding layer_resume
  layer_resume-now (single a) w = rw map_first-world (resume_now a w)
  layer_resume-now (composed x) w = rw map_first-world (composition_resume-now aw.ops ops_now x w)

  layer_value-now : (a : Layer A) (w : World S) → (layer_value aw a w).1.now ≡ w.now
  unfolding layer_value
  layer_value-now (single a) w = value_now a w
  layer_value-now (composed x) w = elim (Outcome-cases (Composition.await_resume aw.ops x w)) [
    | inl ((y, v), e) ↦ ground (arith, e, composition_resume-now aw.ops ops_now x w)
    | inr (z, (y, v), e) ↦ ground (arith, e, composition_resume-now aw.ops ops_now x w)
  ]

  -- What holds of awaitables holds of the compositions of them.
  pub layer-KeepsNow : AwaitKeepsNow (layer_await aw)
  unfolding layer_await
  layer-KeepsNow = record {
    ops_now = record {
      bind_now = layer_bind-now;
      ready_now = layer_ready-now;
      suspend_now = layer_suspend-now;
      resume_now = layer_resume-now;
    };
    value_now = layer_value-now;
  }
