-- ===== src/Core/Process/Clock/Leaves.antt =====
-- include/cxxdes/core/impl/timeout.ipp, impl/coroutine.ipp and impl/async.ipp: awaiting keeps
-- `now_`.
use libcxxdes.Base.{ℕ, ◌≡◌, refl, inl, inr, Option, none, arith}
use libcxxdes.Base.Int.{ℤ}
use libcxxdes.Core.World.{World, Outcome, done, threw}
use libcxxdes.Core.Coroutine
use libcxxdes.Core.Coroutine.{
  set_eptr, set_eptr_all, propagate_exception, schedule_completion, do_return, return_value,
  unhandled_exception, bind, start, async_bind, async_detach, suspend, await_resume_tag,
}
use libcxxdes.Core.Timeout
use libcxxdes.Core.Environment.Clock.{world_of}
use libcxxdes.Core.Process.Awaits.{
  Leaf, sleep, later, join_void, join, launch, leaf_bind, leaf_ready, leaf_suspend, leaf_resume,
  resume_tag, map_first, leaf_value, leaf_ops, leaf_await,
}
use libcxxdes.Core.Process.Clock.Defs.{world_in, AwaitKeepsNow, Outcome-cases}

module _ {S : Type 0} where
  start-now : (c : ℕ) (p : ℤ) (w : World S) → (start c p w).now ≡ w.now
  unfolding start
  start-now c p w = refl

  suspend-now :
      (p : Coroutine.Coroutine) (caller : Option ℕ) (w : World S)
      → (suspend p caller w).1.now ≡ w.now
  unfolding suspend
  suspend-now p caller w = refl

  await_suspend-now :
      (p : Coroutine.Coroutine) (caller : Option ℕ) (w : World S)
      → (world_in (Coroutine.await_suspend p caller w)).now ≡ w.now
  unfolding Coroutine.await_suspend
  await_suspend-now p caller w = ground (arith, suspend-now p caller w)

  async_detach-now :
      (p : Coroutine.Coroutine) (w : World S) → (world_in (async_detach p w)).now ≡ w.now
  unfolding async_detach Coroutine.await_suspend
  async_detach-now p w = ground (arith, suspend-now p none w)

  bind-now : (c : ℕ) (p : ℤ) (w : World S) → (world_of (bind c p w)).now ≡ w.now
  unfolding bind
  bind-now c p w = ground (arith, start-now c p w)

  leaf_bind-now : (a : Leaf) (p : ℤ) (w : World S) → (world_in (leaf_bind a p w)).now ≡ w.now
  unfolding leaf_bind Coroutine.await_bind async_bind map_first
  leaf_bind-now (sleep a) p w = refl
  leaf_bind-now (later a) p w = refl
  leaf_bind-now (join_void h) p w = ground (arith, bind-now h.coro_data p w)
  leaf_bind-now (join h) p w = ground (arith, bind-now h.coro_data p w)
  leaf_bind-now (launch h) p w = elim (Outcome-cases (bind h.coro_data p w)) [
    | inl (v, e) ↦ ground (arith, e, bind-now h.coro_data p w, async_detach-now h v)
    | inr (x, v, e) ↦ ground (arith, e, bind-now h.coro_data p w)
  ]

  leaf_ready-now : (a : Leaf) (w : World S) → (leaf_ready a w).2.now ≡ w.now
  unfolding leaf_ready
  leaf_ready-now (sleep a) w = refl
  leaf_ready-now (later a) w = refl
  leaf_ready-now (join_void h) w = refl
  leaf_ready-now (join h) w = refl
  leaf_ready-now (launch h) w = refl

  pub map_first-world :
      {A B : Type 0} (f : A → B) (o : Outcome (A × World S)) → world_in (map_first f o) ≡ world_in o
  unfolding map_first
  map_first-world f (done (a, w)) = refl
  map_first-world f (threw e (a, w)) = refl

  leaf_suspend-now :
      (a : Leaf) (caller : Option ℕ) (w : World S)
      → (world_in (leaf_suspend a caller w)).now ≡ w.now
  unfolding leaf_suspend Timeout.await_suspend
  leaf_suspend-now (sleep a) caller w = refl
  leaf_suspend-now (later a) caller w = refl
  leaf_suspend-now (join_void h) caller w = rw map_first-world (await_suspend-now h caller w)
  leaf_suspend-now (join h) caller w = rw map_first-world (await_suspend-now h caller w)
  leaf_suspend-now (launch h) caller w = refl

  resume_tag-now :
      (f : Coroutine.Coroutine → Leaf) (h : Coroutine.Coroutine) (w : World S)
      → (world_in (resume_tag f h w)).now ≡ w.now
  unfolding resume_tag
  resume_tag-now f h w = ground arith

  leaf_resume-now : (a : Leaf) (w : World S) → (world_in (leaf_resume a w)).now ≡ w.now
  unfolding leaf_resume
  leaf_resume-now (sleep a) w = refl
  leaf_resume-now (later a) w = refl
  leaf_resume-now (join_void h) w = resume_tag-now join_void h w
  leaf_resume-now (join h) w = resume_tag-now join h w
  leaf_resume-now (launch h) w = refl

  leaf_value-now : (a : Leaf) (w : World S) → (leaf_value a w).1.now ≡ w.now
  unfolding leaf_value
  leaf_value-now (sleep a) w = refl
  leaf_value-now (later a) w = refl
  leaf_value-now (join_void h) w = ground arith
  leaf_value-now (join h) w = ground arith
  leaf_value-now (launch h) w = refl

  pub leaf-KeepsNow : AwaitKeepsNow (leaf_await {S = S})
  unfolding leaf_await leaf_ops
  leaf-KeepsNow = record {
    ops_now = record {
      bind_now = leaf_bind-now;
      ready_now = leaf_ready-now;
      suspend_now = leaf_suspend-now;
      resume_now = leaf_resume-now;
    };
    value_now = leaf_value-now;
  }
