-- ===== src/Misc/Time/Narrowing.antt =====
-- include/cxxdes/misc/time.hpp: `time<Integer>::operator=(time<I> const &)`, the conversion to
-- a signed integer type of `w` bits. The unit is kept as the `int` that the source computes with,
-- since the loop may carry it past the enumerators.
use native.Mathlib.Nat.{mod-eq_of_lt, pow-suc}
use libcxxdes.Base.{
  ℕ, zero, suc, ◌+◌, ◌-◌, ◌*◌, ◌/◌, ◌%◌, ◌^◌, ◌<◌, ◌≤◌, ◌≡◌, ◌≢◌, ◌∙◌, ap, refl, ◌⊎◌, Bool, true,
  false, ◌||◌, if◌then◌else◌, ltb, ◌==◌, arith,
}
use libcxxdes.Base.Int.{
  ℤ, pos, negsuc, pos_part, neg_part, ltb_ℤ, sub_ℕ, ◌/ℤ◌, ◌≤ℤ◌, opposite, opposite_parts,
}
use libcxxdes.Misc.Time.Quantity.{Time, TimeUnitType, unit_count, index, conv}
use libcxxdes.Misc.Time.Rational.{picoseconds_per, coarser_weight}

-- 2 ^ (w - 1): the type holds -half … half - 1.
abbrev pub half : ℕ → ℕ
half w = 2 ^ (w - 1)

abbrev pub max_of : ℕ → ℤ
max_of w = pos (half w - 1)

abbrev pub min_of : ℕ → ℤ
min_of w = opposite (half w)

-- `new_t > max || new_t < min`
unfoldable pub outside : ℕ → ℤ → Bool
outside w t = ltb_ℤ (max_of w) t || ltb_ℤ t (min_of w)

-- The conversion `(integer_type) t`, modulo 2 ^ w.
unfoldable pub to_width : ℕ → ℤ → ℤ
to_width w t =
    let m = half w + half w in let r = residue m t in if ltb r (half w) then pos r else sub_ℕ r m
  where
    residue : ℕ → ℤ → ℕ
    residue m (pos n) = n % m
    residue m (negsuc n) = m - 1 - n % m

-- The `while` loop on `new_t` and `new_u`.
unfoldable pub narrow_loop : ℕ → ℕ → ℤ → ℕ → ℤ × ℕ
narrow_loop zero w t u = (t, u)
narrow_loop (suc fuel) w t u = elim (outside w t) [
  | false ↦ (t, u)
  | true ↦
      let t' = t /ℤ pos 1000 in
      let rest = narrow_loop fuel w t' (u + 1) in if u + 1 == 4 then (t', u + 1) else rest
]

-- Each round divides a quantity that is not 0, so its size is fuel enough.
abbrev pub size : ℤ → ℕ
size t = pos_part t + neg_part t

-- The stored count and the stored unit.
unfoldable pub narrow_assign : ℕ → Time → ℤ × ℕ
unfolding narrow_loop to_width
narrow_assign w other =
    let (t, u) = narrow_loop (size other.t + 1) w other.t (index other.u) in (to_width w t, u)

pow_pos : (n : ℕ) → 0 < 2 ^ n
pow_pos zero = omega arith
pow_pos (suc n) = rw pow-suc (omega (arith, pow_pos n))

half_pos : (w : ℕ) → 0 < half w
half_pos w = pow_pos (w - 1)

-- The conversion keeps a number that fits.
to_width_fits : (w : ℕ) (t : ℤ) → min_of w ≤ℤ t → t ≤ℤ max_of w → to_width w t ≡ t
unfolding to_width
to_width_fits w (pos n) lo hi =
    ground (arith, half_pos w, mod-eq_of_lt {n = n} {m = half w + half w})
to_width_fits w (negsuc n) lo hi =
    ground (arith, half_pos w, opposite_parts (half w), mod-eq_of_lt {n = n} {m = half w + half w})

fits→inside : (w : ℕ) (t : ℤ) → min_of w ≤ℤ t → t ≤ℤ max_of w → outside w t ≡ false
unfolding outside
fits→inside w t lo hi = ground (arith, half_pos w)

narrow_loop-inside :
    (fuel w : ℕ) (t : ℤ) (u : ℕ) → outside w t ≡ false → narrow_loop fuel w t u ≡ (t, u)
unfolding narrow_loop
narrow_loop-inside zero w t u e = refl
narrow_loop-inside (suc fuel) w t u e = ground arith

-- A count within the range of a signed type of `w` bits is converted to that type unchanged, and
-- keeps its unit.
pub narrow_assign_fits :
    (w : ℕ) (x : Time) → min_of w ≤ℤ x.t → x.t ≤ℤ max_of w → narrow_assign w x ≡ (x.t, index x.u)
unfolding narrow_assign
narrow_assign_fits w x lo hi = rw (
  narrow_loop-inside (size x.t + 1) w x.t (index x.u) (fits→inside w x.t lo hi),
  to_width_fits w x.t lo hi,
)

size-div : (t : ℤ) → 0 < size t → size (t /ℤ pos 1000) < size t
unfolding ◌/ℤ◌
size-div (pos n) h = omega arith
size-div (negsuc n) h = omega (arith, opposite_parts (suc n / 1000))

outside-size : (w : ℕ) (t : ℤ) → outside w t ≡ true → 0 < size t
unfolding outside
outside-size w t e = ground (arith, half_pos w, opposite_parts (half w))

-- With fuel beyond the size of the count, the loop of the narrowing conversion ends by its own
-- tests: the count fits, or the unit is picoseconds.
pub narrow_loop_ends :
    (fuel w : ℕ) (t : ℤ) (u : ℕ)
    → size t < fuel
    → (outside w (narrow_loop fuel w t u).0 ≡ false) ⊎ ((narrow_loop fuel w t u).1 ≡ 4)
unfolding narrow_loop
narrow_loop_ends zero w t u h = elim h [ ]
narrow_loop_ends (suc fuel) w t u h =
    ground (arith, size-div t, outside-size w t, narrow_loop_ends fuel w (t /ℤ pos 1000) (u + 1))

outside-pos : (w n : ℕ) → half w ≤ n → outside w (pos n) ≡ true
unfolding outside
outside-pos w n h = ground (arith, half_pos w)

inside-pos : (w n : ℕ) → n < half w → outside w (pos n) ≡ false
unfolding outside
inside-pos w n h = ground (arith, half_pos w, opposite_parts (half w))

-- One round is enough if the first quotient fits.
narrow_loop_once :
    (fuel w n u : ℕ)
    → 0 < fuel
    → half w ≤ n
    → n / 1000 < half w
    → narrow_loop fuel w (pos n) u ≡ (pos (n / 1000), u + 1)
unfolding narrow_loop ◌/ℤ◌
narrow_loop_once zero w n u h out back = elim h [ ]
narrow_loop_once (suc fuel) w n u h out back =
    rw (outside-pos w n out, narrow_loop)
      (ground (arith, narrow_loop-inside fuel w (pos (n / 1000)) (u + 1) (inside-pos w _ back)))

thousand_finer :
    (u v : TimeUnitType)
    → index v ≡ index u + 1
    → v ≢ unit_count
    → picoseconds_per u ≡ 1000 * picoseconds_per v
thousand_finer u v next known =
    let one_apart : index v - index u ≡ 1 = omega arith in
    coarser_weight u v (omega arith) known ∙ ap (λ (d : ℕ). conv d * picoseconds_per v) one_apart

-- The conversion to a type of `w` bits of a natural count that is too large, and fits after one
-- division by 1000, stores that quotient with the next finer unit: a quantity at most a millionth
-- of the original.
pub narrow_assign_shrinks :
    (w n : ℕ) (u v : TimeUnitType)
    → half w ≤ n
    → n / 1000 < half w
    → index v ≡ index u + 1
    → v ≢ unit_count
    → (narrow_assign w (record { t = pos n; u = u }) ≡ (pos (n / 1000), index v))
      × (n / 1000 * picoseconds_per v * 1_000_000 ≤ n * picoseconds_per u)
unfolding narrow_assign
narrow_assign_shrinks w n u v out back next known = (
  rw (
    narrow_loop_once (n + 0 + 1) w n (index u) (omega arith) out back,
    to_width_fits w (pos (n / 1000)) (omega (arith, opposite_parts (half w))) (omega arith),
    next,
  ),
  rw (thousand_finer u v next known) (grind arith),
)
