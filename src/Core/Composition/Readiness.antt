-- ===== src/Core/Composition/Readiness.antt =====
-- include/cxxdes/core/impl/any_of.ipp: when awaiting a composition does not suspend.
use libcxxdes.Base.{
  ℕ, suc, ◌+◌, ◌-◌, ◌≡◌, refl, ap, ◌<◌, ◌≤◌, ◌⊎◌, inl, inr, Bool, true, false, List, [], ◌∷◌, All,
  length, arith, if◌then◌else◌,
}
use libcxxdes.Core.World.{World, any_of, all_of}
use libcxxdes.Core.Composition.Handler.{holds}
use libcxxdes.Core.Composition.Base.{Awaitable, AnyAll, remaining_of, readiness, await_ready}

-- How many are not ready.
abbrev pub unready : List Bool → ℕ
unready [] = 0
unready (r ∷ rs) = (if r then 0 else 1) + unready rs

unready-le : (rs : List Bool) → unready rs ≤ length rs
unready-le [] = omega arith
unready-le (true ∷ rs) = omega (arith, unready-le rs)
unready-le (false ∷ rs) = omega (arith, unready-le rs)

remaining_of-unready :
    (n : ℕ) (rs : List Bool) → length rs ≤ n → remaining_of n rs + length rs ≡ n + unready rs
unfolding remaining_of
remaining_of-unready n [] h = omega arith
remaining_of-unready n (true ∷ rs) h = omega (arith, remaining_of-unready (n - 1) rs (omega arith))
remaining_of-unready n (false ∷ rs) h = omega (arith, remaining_of-unready (n - 0) rs (omega arith))

-- Every child was ready; some child was.
abbrev pub AllReady : List Bool → Type 0
AllReady = All (λ r. r ≡ true)

abbrev pub SomeReady : List Bool → Type 0
SomeReady [] = ⊥
SomeReady (r ∷ rs) = (r ≡ true) ⊎ SomeReady rs

all-unready : (rs : List Bool) → (unready rs ≡ 0 → AllReady rs) × (AllReady rs → unready rs ≡ 0)
all-unready [] = (λ h. tt, λ h. refl)
all-unready (true ∷ rs) =
    (λ h. (refl, (all-unready rs).0 (omega arith)), λ h. omega (arith, (all-unready rs).1 h.1))
all-unready (false ∷ rs) = (λ h. absurd (omega arith), λ h. absurd (cc (h.0)))

some-unready :
    (rs : List Bool)
    → (unready rs < length rs → SomeReady rs) × (SomeReady rs → unready rs < length rs)
some-unready [] = (λ h. absurd (omega arith), λ h. absurd h)
some-unready (true ∷ rs) = (λ h. inl refl, λ h. omega (arith, unready-le rs))
some-unready (false ∷ rs) = (
  λ h. inr ((some-unready rs).0 (omega arith)),
  λ h. elim h [ inl e ↦ cc | inr s ↦ omega (arith, (some-unready rs).1 s) ],
)

module _ {S C : Type 0} (ops : Awaitable S C) where
  length-readiness : (cs : List C) (w : World S) → length (readiness ops cs w).0 ≡ length cs
  unfolding readiness
  length-readiness [] w = refl
  length-readiness (a ∷ cs) w = ap suc (length-readiness cs _)

  -- `await_ready` of a composition stores the answers of its children, one for each, and the
  -- number of those not ready. An `all_of` is ready exactly if all children are, an `any_of`
  -- exactly if some child is.
  pub await_ready-children :
      (x : AnyAll C) (w : World S)
      → let rs = (readiness ops x.children w).0 in
        let (r, x', v) = await_ready ops x w in
        (x'.ready ≡ rs)
        × (length rs ≡ length x.children)
        × (x'.remaining ≡ unready rs)
        × (x.condition ≡ all_of → (r ≡ true → AllReady rs) × (AllReady rs → r ≡ true))
        × (x.condition ≡ any_of → (r ≡ true → SomeReady rs) × (SomeReady rs → r ≡ true))
  unfolding await_ready holds
  await_ready-children x w = (
    refl,
    length-readiness x.children w,
    counted,
    λ e. (
      λ h. (all-unready rs).0 (ground (arith, counted)),
      λ h. ground (arith, counted, (all-unready rs).1 h),
    ),
    λ e. (
      λ h. (some-unready rs).0 (ground (arith, counted, length-readiness x.children w)),
      λ h. ground (arith, counted, length-readiness x.children w, (some-unready rs).1 h),
    ),
  )
    where
      rs : List Bool
      rs = (readiness ops x.children w).0

      counted : remaining_of (length x.children) rs ≡ unready rs
      counted = omega (
        arith,
        length-readiness x.children w,
        remaining_of-unready (length x.children) rs (omega (arith, length-readiness x.children w)),
      )
