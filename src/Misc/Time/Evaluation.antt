-- ===== src/Misc/Time/Evaluation.antt =====
-- include/cxxdes/misc/time.hpp: what the expression nodes and `time_expr` evaluate to.
use native.Mathlib.Nat.{div-one, one-mul, zero-mul}
use libcxxdes.Base.{
  ℕ, suc, ◌≡◌, refl, ◌≢◌, ◌≤◌, ◌-◌, ◌*◌, ◌∙◌, ap, arith, true, false, none, some, ltb, ltb→lt,
  Bool-cases, inl, inr,
}
use libcxxdes.Base.Int
use libcxxdes.Base.Int.{
  ℤ, pos, negsuc, ◌+ℤ◌, ◌-ℤ◌, ◌*ℤ◌, ◌/ℤ◌, +ℤ-*ℤ, -ℤ-*ℤ, *ℤ_swap_right, *ℤ_comm,
}
use libcxxdes.Misc.Time.Quantity.{
  Time, TimeUnitType, unit_count, index, conv, count, unitless_count,
}
use libcxxdes.Misc.Time.Rational.{picoseconds_per, coarser_weight, finer_weight, pos-mul-pos}
use libcxxdes.Misc.Time.Expr.{
  Node, quantity, unitless, negate, add, subtract, scale_left, scale_right, divide, node_count,
  TimeExpr, expr_count, valid, copy_assign,
}

abbrev pub picoseconds_of : Time → ℤ
picoseconds_of x = x.t *ℤ pos (picoseconds_per x.u)

-- The exact value of an expression, in picoseconds, where the model unit is `unit`.
unfoldable pub exact : Node → Time → ℤ
exact (quantity x) unit = picoseconds_of x
exact (unitless t) unit = t *ℤ picoseconds_of unit
exact (negate a) unit = pos 0 -ℤ exact a unit
exact (add a b) unit = exact a unit +ℤ exact b unit
exact (subtract a b) unit = exact a unit -ℤ exact b unit
exact (scale_right a k) unit = exact a unit *ℤ k
exact (scale_left k a) unit = k *ℤ exact a unit
exact (divide a k) unit = pos 0

-- No quantity is finer than the tick, and nothing is divided.
abbrev pub IsLossless : TimeUnitType → Time → Node → Type 0
IsLossless tick unit (quantity x) = index x.u ≤ index tick
IsLossless tick unit (unitless t) = index unit.u ≤ index tick
IsLossless tick unit (negate a) = IsLossless tick unit a
IsLossless tick unit (add a b) = IsLossless tick unit a × IsLossless tick unit b
IsLossless tick unit (subtract a b) = IsLossless tick unit a × IsLossless tick unit b
IsLossless tick unit (scale_right a k) = IsLossless tick unit a
IsLossless tick unit (scale_left k a) = IsLossless tick unit a
IsLossless tick unit (divide a k) = ⊥

abbrev pub tick_of : TimeUnitType → Time
tick_of u = record { t = pos 1; u = u }

/ℤ_one : (t : ℤ) → t /ℤ pos 1 ≡ t
unfolding ◌/ℤ◌
/ℤ_one (pos n) = ap pos (div-one n)
/ℤ_one (negsuc n) = ap Int.opposite (div-one (suc n))

weigh_product : (c k : ℕ) (t : ℤ) → pos c *ℤ t *ℤ pos k ≡ t *ℤ pos (c * k)
weigh_product c k t =
    *ℤ_swap_right (pos c) t k ∙ ap (λ a. a *ℤ t) (pos-mul-pos c k) ∙ *ℤ_comm (pos (c * k)) t

*ℤ_comm_weight : (a b : ℤ) (k : ℕ) → a *ℤ b *ℤ pos k ≡ a *ℤ (b *ℤ pos k)
*ℤ_comm_weight a b k =
    ap (λ c. c *ℤ pos k) (*ℤ_comm a b) ∙ *ℤ_swap_right b a k ∙ *ℤ_comm (b *ℤ pos k) a

zero-*ℤ : (k : ℕ) → pos 0 *ℤ pos k ≡ pos 0
zero-*ℤ k = pos-mul-pos 0 k ∙ ap pos (zero-mul k)

index-known : (u : TimeUnitType) → u ≢ unit_count → index u ≤ 4
index-known unit_count h = absurd (h refl)
index-known _ h = omega arith

same_weight :
    (v u : TimeUnitType)
    → v ≢ unit_count
    → u ≢ unit_count
    → index v ≡ index u
    → picoseconds_per u ≡ picoseconds_per v
same_weight v u known_v known_u e =
    let same : index v - index u ≡ 0 = omega arith in
    let one : conv (index v - index u) ≡ 1 = rw same in
    finer_weight v u (omega arith) known_v
    ∙ ap (λ (c : ℕ). c * picoseconds_per v) one
    ∙ one-mul (picoseconds_per v)

-- A quantity that is no finer than the tick is counted without loss.
count-exact :
    (x : Time) (u : TimeUnitType)
    → u ≢ unit_count
    → index x.u ≤ index u
    → count x (tick_of u) *ℤ pos (picoseconds_per u) ≡ picoseconds_of x
unfolding count
count-exact x u known h = elim (Bool-cases (ltb (index x.u) (index u))) [
  | inl e ↦ rw (
    e,
    /ℤ_one (pos (conv (index u - index x.u)) *ℤ x.t),
    weigh_product (conv (index u - index x.u)) (picoseconds_per u) x.t,
    coarser_weight x.u u (ltb→lt _ _ e) known,
  )
  | inr e ↦
      let same : index x.u - index u ≡ 0 = omega arith in
      rw (e, same, /ℤ_one x.t, /ℤ_one x.t)
        (ap (λ w. x.t *ℤ pos w)
          (same_weight x.u u (λ q. absurd (ground (arith, index-known u known, ap index q))) known
            (ground arith)))
]

-- For a tick of 1 of a known unit, and an expression without division whose quantities, and whose
-- model unit where it is used, are no finer than the tick, `node_count` in ticks is exactly the
-- value of the expression.
pub node_count-exact :
    (n : Node) (u : TimeUnitType) (unit : Time)
    → u ≢ unit_count
    → IsLossless u unit n
    → node_count n (tick_of u) unit *ℤ pos (picoseconds_per u) ≡ exact n unit
unfolding node_count exact unitless_count
node_count-exact (quantity x) u unit known h = count-exact x u known h
node_count-exact (unitless t) u unit known h =
    *ℤ_comm_weight t (count unit (tick_of u)) (picoseconds_per u)
    ∙ ap (λ a. t *ℤ a) (count-exact unit u known h)
node_count-exact (negate a) u unit known h =
    rw (-ℤ-*ℤ, zero-*ℤ (picoseconds_per u), node_count-exact a u unit known h)
node_count-exact (add a b) u unit known h =
    rw (+ℤ-*ℤ, node_count-exact a u unit known h.0, node_count-exact b u unit known h.1)
node_count-exact (subtract a b) u unit known h =
    rw (-ℤ-*ℤ, node_count-exact a u unit known h.0, node_count-exact b u unit known h.1)
node_count-exact (scale_right a k) u unit known h =
    rw (*ℤ_swap_right, node_count-exact a u unit known h)
node_count-exact (scale_left k a) u unit known h =
    *ℤ_comm_weight k (node_count a (tick_of u) unit) (picoseconds_per u)
    ∙ ap (λ b. k *ℤ b) (node_count-exact a u unit known h)
node_count-exact (divide a k) u unit known h = absurd h

-- A valid time expression can be copied, and the copy counts like the original for every precision
-- and model unit.
pub copy_assign-count :
    (target other : TimeExpr)
    → valid other ≡ true
    → (copy : TimeExpr) × (copy_assign target other ≡ some copy)
      × ((precision unit : Time) → expr_count copy precision unit ≡ expr_count other precision unit)
unfolding copy_assign expr_count valid
copy_assign-count target other h =
    (record { impl = other.impl }, ground arith, λ precision unit. refl)

-- An expression that was default-constructed, or moved from, cannot be copied.
pub copy_assign-invalid :
    (target other : TimeExpr) → valid other ≡ false → copy_assign target other ≡ none
unfolding copy_assign valid
copy_assign-invalid target other h = ground arith
