-- ===== src/Core/Process/Clock/Defs.antt =====
-- What it is to leave the clock alone.
use libcxxdes.Base.{ℕ, ◌≡◌, refl, ◌⊎◌, inl, inr, Option}
use libcxxdes.Base.Int.{ℤ}
use libcxxdes.Core.Token.{Exception}
use libcxxdes.Core.World.{World, Outcome, done, threw}
use libcxxdes.Core.Composition.{Awaitable}
use libcxxdes.Core.Process.Drive.{Await}

abbrev pub world_in : {A S : Type 0} → Outcome (A × World S) → World S
world_in (done (a, w)) = w
world_in (threw e (a, w)) = w

-- The operations of an awaitable leave the clock alone.
pub record KeepsNow {S C : Type 0} (ops : Awaitable S C) : Type 0 where
  pub bind_now : (a : C) (p : ℤ) (w : World S) → (world_in (ops.child_bind a p w)).now ≡ w.now
  pub ready_now : (a : C) (w : World S) → (ops.child_ready a w).2.now ≡ w.now
  pub suspend_now :
      (a : C) (caller : Option ℕ) (w : World S)
      → (world_in (ops.child_suspend a caller w)).now ≡ w.now
  pub resume_now : (a : C) (w : World S) → (world_in (ops.child_resume a w)).now ≡ w.now

pub record AwaitKeepsNow {S C V : Type 0} (aw : Await S C V) : Type 0 where
  pub ops_now : KeepsNow aw.ops
  pub value_now : (a : C) (w : World S) → (aw.resume_value a w).1.now ≡ w.now

pub Outcome-cases :
    {A : Type 0} (o : Outcome A)
    → ((a : A) × (o ≡ done a)) ⊎ ((e : Exception) × (a : A) × (o ≡ threw e a))
Outcome-cases (done a) = inl (a, refl)
Outcome-cases (threw e a) = inr (e, a, refl)
