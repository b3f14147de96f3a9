-- ===== src/Core/Token/Order.antt =====
-- The order of tokens that `token_comp` of include/cxxdes/core/impl/environment.ipp defines.
use libcxxdes.Base.{◌≡◌, ◌⊎◌, ◌↔◌, Bool, true, false, arith}
use libcxxdes.Base.Int.{◌<ℤ◌, eq_of_parts}
use libcxxdes.Core.Token.Defs.{Token, has_priority, token_comp}

-- `a` runs before `b`: an earlier time, or the same time and a smaller priority.
abbrev pub Before : Token → Token → Type 0
Before a b = (a.time <ℤ b.time) ⊎ ((a.time ≡ b.time) × (a.priority <ℤ b.priority))

-- No exception that only `step` can process.
abbrev pub IsPlain : Token → Type 0
IsPlain a = has_priority a ≡ false

-- What `std::priority_queue` asks of its comparator, on the elements that `P` holds of.
pub record IsStrictWeakOrder {A : Type 0} (P : A → Type 0) (comp : A → A → Bool) : Type 0 where
  pub irreflexive : (a : A) → P a → comp a a ≡ false
  pub asymmetric : (a b : A) → P a → P b → comp a b ≡ true → comp b a ≡ false
  pub transitive :
      (a b c : A) → P a → P b → P c → comp a b ≡ true → comp b c ≡ true → comp a c ≡ true
  pub negatively_transitive :
      (a b c : A) → P a → P b → P c → comp a b ≡ false → comp b c ≡ false → comp a c ≡ false

-- For a `b` that is not an exception for `step` itself, `token_comp a b` is true exactly if `b`
-- has an earlier time than `a`, or the same time and a smaller priority number.
pub token_comp_iff : (a b : Token) → IsPlain b → (token_comp a b ≡ true) ↔ Before b a
unfolding token_comp
token_comp_iff a b h =
    (λ e. ground (arith, eq_of_parts a.time b.time, eq_of_parts b.time a.time), λ e. ground arith)

-- On tokens that are not exceptions for `step` itself, `token_comp` is a strict weak order:
-- irreflexive, asymmetric, transitive and negatively transitive, as `std::priority_queue`
-- requires.
pub token_comp-IsStrictWeakOrder : IsStrictWeakOrder IsPlain token_comp
unfolding token_comp
token_comp-IsStrictWeakOrder = record {
  irreflexive = λ a p. ground arith;
  asymmetric = λ a b p q e. ground arith;
  transitive = λ a b c p q r e f. ground arith;
  negatively_transitive = λ a b c p q r e f. ground arith;
}

-- An exception token and an earlier token are each to run before the other.
pub token_comp-exception :
    (a b : Token)
    → has_priority a ≡ true
    → b.time <ℤ a.time
    → (token_comp a b ≡ true) × (token_comp b a ≡ true)
unfolding token_comp
token_comp-exception a b h e = ground arith

-- If an exception token may be among the elements, `token_comp` is no strict weak order on them.
pub token_comp-not-IsStrictWeakOrder :
    (P : Token → Type 0) (a : Token)
    → P a
    → has_priority a ≡ true
    → ¬ IsStrictWeakOrder P token_comp
unfolding token_comp
token_comp-not-IsStrictWeakOrder P a p h order = ground (arith, order.irreflexive a p)
