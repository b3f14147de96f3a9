-- ===== src/Misc/Time/Rational.antt =====
-- include/cxxdes/misc/time.hpp: what `time::count` computes, against exact fractions.
use native.Mathlib.Nat.{div-div-eq-div-mul, mul-div-mul_right, zero-div, mul_assoc, mul_comm}
use mathlib.Core.Path.{ap₂}
use libcxxdes.Base.{
  ℕ, zero, suc, ◌*◌, ◌/◌, ◌-◌, ◌<◌, ◌≤◌, ◌≡◌, refl, sym, ap, ◌≢◌, ◌∙◌, arith, ltb, ltb→lt,
  Bool-cases, inl, inr, dec_lt,
}
use libcxxdes.Base.Int.{ℤ, pos, negsuc, ◌*ℤ◌, ◌/ℤ◌, opposite, *ℤ_parts, opposite_parts, eq_of_parts}
use libcxxdes.Misc.Time.Quantity.{
  Time, TimeUnitType, seconds, milliseconds, microseconds, nanoseconds, picoseconds, unit_count,
  index, conv, count,
}

opposite-div : (m p : ℕ) → opposite m /ℤ pos p ≡ opposite (m / p)
unfolding ◌/ℤ◌
opposite-div zero p = rw zero-div
opposite-div (suc m) p = refl

pos-mul-opposite : (c m : ℕ) → pos c *ℤ opposite m ≡ opposite (c * m)
pos-mul-opposite c zero =
    eq_of_parts _ _ (omega (arith, *ℤ_parts (pos c) (pos 0), opposite_parts (c * 0)))
pos-mul-opposite c (suc m) =
    eq_of_parts _ _ (omega (arith, *ℤ_parts (pos c) (negsuc m), opposite_parts (c * suc m)))

pub pos-mul-pos : (c m : ℕ) → pos c *ℤ pos m ≡ pos (c * m)
pos-mul-pos c m = eq_of_parts _ _ (omega (arith, *ℤ_parts (pos c) (pos m)))

pos-div : (m p : ℕ) → pos m /ℤ pos p ≡ pos (m / p)
unfolding ◌/ℤ◌
pos-div m p = refl

coarser_nat : (c p k n : ℕ) → 0 < k → c * n / p ≡ c * k * n / (p * k)
coarser_nat c p k n h =
    sym (mul-div-mul_right (c * n) p h) ∙ ap (λ (a : ℕ). a / (p * k)) (omega arith)

finer_nat : (c p w n : ℕ) → 0 < w → n / p / c ≡ w * n / (p * (c * w))
finer_nat c p w n h =
    div-div-eq-div-mul n p c
    ∙ sym (mul-div-mul_right n (p * c) h)
    ∙ ap₂ (λ (a b : ℕ). a / b) (mul_comm n w) (mul_assoc p c w)

coarser_opposite :
    (c p k m : ℕ) → 0 < k → pos c *ℤ opposite m /ℤ pos p ≡ pos (c * k) *ℤ opposite m /ℤ pos (p * k)
coarser_opposite c p k m h =
    rw
      (
        pos-mul-opposite c m,
        pos-mul-opposite (c * k) m,
        opposite-div (c * m) p,
        opposite-div (c * k * m) (p * k),
      )
      (ap opposite (coarser_nat c p k m h))

finer_opposite :
    (c p w m : ℕ) → 0 < w → opposite m /ℤ pos p /ℤ pos c ≡ pos w *ℤ opposite m /ℤ pos (p * (c * w))
finer_opposite c p w m h =
    rw
      (
        pos-mul-opposite w m,
        opposite-div m p,
        opposite-div (m / p) c,
        opposite-div (w * m) (p * (c * w)),
      )
      (ap opposite (finer_nat c p w m h))

-- `conv[d] * t / p` is the fraction `w * t / (p * k)` for the weights `w = conv[d] * k` and `k`.
coarser_ratio : (c p k : ℕ) (t : ℤ) → 0 < k → pos c *ℤ t /ℤ pos p ≡ pos (c * k) *ℤ t /ℤ pos (p * k)
coarser_ratio c p k (pos n) h =
    rw (pos-mul-pos c n, pos-mul-pos (c * k) n, pos-div (c * n) p, pos-div (c * k * n) (p * k))
      (ap pos (coarser_nat c p k n h))
coarser_ratio c p k (negsuc n) h = coarser_opposite c p k (suc n) h

-- `t / p / conv[d]` is the fraction `w * t / (p * (conv[d] * w))`.
finer_ratio : (c p w : ℕ) (t : ℤ) → 0 < w → t /ℤ pos p /ℤ pos c ≡ pos w *ℤ t /ℤ pos (p * (c * w))
finer_ratio c p w (pos n) h =
    rw (pos-mul-pos w n, pos-div n p, pos-div (n / p) c, pos-div (w * n) (p * (c * w)))
      (ap pos (finer_nat c p w n h))
finer_ratio c p w (negsuc n) h = finer_opposite c p w (suc n) h

-- Picoseconds in one of each unit.
abbrev pub picoseconds_per : TimeUnitType → ℕ
picoseconds_per TimeUnitType.seconds = 1_000_000_000_000
picoseconds_per TimeUnitType.milliseconds = 1_000_000_000
picoseconds_per TimeUnitType.microseconds = 1_000_000
picoseconds_per TimeUnitType.nanoseconds = 1_000
picoseconds_per TimeUnitType.picoseconds = 1
picoseconds_per TimeUnitType.unit_count = 0

pub coarser_weight :
    (v u : TimeUnitType)
    → index v < index u
    → u ≢ unit_count
    → picoseconds_per v ≡ conv (index u - index v) * picoseconds_per u
coarser_weight seconds seconds h k = omega arith
coarser_weight milliseconds seconds h k = omega arith
coarser_weight microseconds seconds h k = omega arith
coarser_weight nanoseconds seconds h k = omega arith
coarser_weight picoseconds seconds h k = omega arith
coarser_weight unit_count seconds h k = omega arith
coarser_weight _ unit_count h k = absurd (k refl)
coarser_weight _ _ h k = omega arith

pub finer_weight :
    (v u : TimeUnitType)
    → index u ≤ index v
    → v ≢ unit_count
    → picoseconds_per u ≡ conv (index v - index u) * picoseconds_per v
finer_weight v u h k = elim (dec_lt (index u) (index v)) [
  | yes p ↦ coarser_weight u v p k
  | no p ↦ same v u (omega arith)
]
  where
    same :
        (v u : TimeUnitType)
        → index u ≡ index v
        → picoseconds_per u ≡ conv (index v - index u) * picoseconds_per v
    same seconds seconds h = omega arith
    same milliseconds seconds h = omega arith
    same microseconds seconds h = omega arith
    same nanoseconds seconds h = omega arith
    same picoseconds seconds h = omega arith
    same unit_count seconds h = omega arith
    same _ _ h = omega arith

weight_pos : (u : TimeUnitType) → u ≢ unit_count → 0 < picoseconds_per u
weight_pos unit_count h = absurd (h refl)
weight_pos _ h = omega arith

-- For known units, `count` is the quotient of the quantity by the tick, both exactly in
-- picoseconds, rounded towards 0 once, for every sign of the quantity and every natural size of
-- the tick.
pub count-ratio :
    (x : Time) (p : ℕ) (u : TimeUnitType)
    → x.u ≢ unit_count
    → u ≢ unit_count
    → count x (record { t = pos p; u = u })
      ≡ pos (picoseconds_per x.u) *ℤ x.t /ℤ pos (p * picoseconds_per u)
unfolding count
count-ratio x p u h k = elim (Bool-cases (ltb (index x.u) (index u))) [
  | inl e ↦
      rw (e, coarser_weight x.u u (ltb→lt _ _ e) k)
        (coarser_ratio (conv (index u - index x.u)) p (picoseconds_per u) x.t (weight_pos u k))
  | inr e ↦
      rw (e, finer_weight x.u u (ground arith) h)
        (finer_ratio (conv (index x.u - index u)) p (picoseconds_per x.u) x.t (weight_pos x.u h))
]
