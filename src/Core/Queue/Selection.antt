-- ===== src/Core/Queue/Selection.antt =====
-- An implementation of `PriorityQueue`: a scan for an element that comes first.
use libcxxdes.Base.{
  ℕ, ◌≡◌, refl, ap, suc, length, Bool, false, List, [], ◌∷◌, Option, none, some, if◌then◌else◌,
  Bool-cases, inl, inr, arith, count, In, dec_lt,
}
use libcxxdes.Core.Token.Order.{IsStrictWeakOrder}
use libcxxdes.Core.Queue.Interface.{PriorityQueue}

-- The first of `best` and the elements of the list, and the others.
select : (ℕ → ℕ → Bool) → ℕ → List ℕ → ℕ × List ℕ
select comp best [] = (best, [])
select comp best (x ∷ xs) =
    let found = select comp (if comp best x then x else best) xs in
    (found.0, (if comp best x then best else x) ∷ found.1)

select-count :
    (comp : ℕ → ℕ → Bool) (best : ℕ) (xs : List ℕ) (i : ℕ)
    → count i ((select comp best xs).0 ∷ (select comp best xs).1) ≡ count i (best ∷ xs)
unfolding select
select-count comp best [] i = refl
select-count comp best (x ∷ xs) i =
    ground (arith, select-count comp best xs i, select-count comp x xs i)

module _ (P : ℕ → Type 0) (comp : ℕ → ℕ → Bool) (order : IsStrictWeakOrder P comp) where
  open order use {irreflexive, asymmetric, negatively_transitive}

  -- If nothing in `best ∷ xs` comes before the selected element, then neither does an `other` that
  -- does not come before `best`.
  extend :
      (best other : ℕ) (xs : List ℕ)
      → ((i : ℕ) → In i (best ∷ other ∷ xs) → P i)
      → comp best other ≡ false
      → ((i : ℕ) → In i (best ∷ xs) → comp (select comp best xs).0 i ≡ false)
      → (i : ℕ) → In i (best ∷ other ∷ xs)
      → comp (select comp best xs).0 i ≡ false
  extend best other xs all behind first i m = elim (dec_lt 0 (count i (best ∷ xs))) [
    | yes p ↦ first i p
    | no p ↦
        let e : other ≡ i = ground arith in
        rw (← e) (
          negatively_transitive sel best other (all sel (ground (arith, found)))
            (all best (ground arith)) (all other (ground arith)) (first best (ground arith)) behind)
  ]
    where
      sel : ℕ
      sel = (select comp best xs).0

      found : count sel (sel ∷ (select comp best xs).1) ≡ count sel (best ∷ xs)
      found = select-count comp best xs sel

  -- Nothing comes before the selected element.
  select-first :
      (best : ℕ) (xs : List ℕ)
      → ((i : ℕ) → In i (best ∷ xs) → P i)
      → (i : ℕ) → In i (best ∷ xs)
      → comp (select comp best xs).0 i ≡ false
  unfolding select
  select-first best [] all i m =
      let e : best ≡ i = ground arith in rw (← e) (irreflexive best (all best (ground arith)))
  select-first best (x ∷ xs) all i m = elim (Bool-cases (comp best x)) [
    | inl e ↦ rw e (
        extend x best xs (λ j h. all j (omega arith))
          (asymmetric best x (all best (ground arith)) (all x (ground arith)) e)
          (select-first x xs (λ j h. all j (omega arith))) i (omega arith))
    | inr e ↦ rw e (extend best x xs all e (select-first best xs (λ j h. all j (omega arith))) i m)
  ]

unfoldable pub scan : (ℕ → ℕ → Bool) → List ℕ → Option (ℕ × List ℕ)
unfolding select
scan comp [] = none
scan comp (x ∷ xs) = some (select comp x xs)

pub scan-count :
    (comp : ℕ → ℕ → Bool) (xs : List ℕ) (t : ℕ) (rest : List ℕ)
    → scan comp xs ≡ some (t, rest)
    → (i : ℕ) → count i (t ∷ rest) ≡ count i xs
unfolding scan
scan-count comp [] t rest e i = cc
scan-count comp (x ∷ xs) t rest e i = ground (arith, select-count comp x xs i)

pub scan-first :
    (P : ℕ → Type 0) (comp : ℕ → ℕ → Bool) (xs : List ℕ) (t : ℕ) (rest : List ℕ)
    → IsStrictWeakOrder P comp
    → ((i : ℕ) → In i xs → P i)
    → scan comp xs ≡ some (t, rest)
    → (i : ℕ) → In i rest
    → comp t i ≡ false
unfolding scan
scan-first P comp [] t rest order all e i m = cc
scan-first P comp (x ∷ xs) t rest order all e i m =
    let in_all : In i (x ∷ xs) = ground (arith, select-count comp x xs i) in
    let chosen : (select comp x xs).0 ≡ t = ground arith in
    rw (← chosen) (select-first P comp order x xs all i in_all)

unfoldable pub selection : PriorityQueue
unfolding scan
selection = record {
  pop = scan;
  pop-nil = λ comp. refl;
  pop-cons = λ comp x xs. ((select comp x xs).0, (select comp x xs).1, refl);
  pop-count = scan-count;
  pop-first = scan-first;
}

select-length :
    (comp : ℕ → ℕ → Bool) (best : ℕ) (xs : List ℕ) → length (select comp best xs).1 ≡ length xs
unfolding select
select-length comp best [] = refl
select-length comp best (x ∷ xs) = ap suc (select-length comp (if comp best x then x else best) xs)

-- A pop takes one element.
pub selection-length :
    (comp : ℕ → ℕ → Bool) (xs : List ℕ) (t : ℕ) (rest : List ℕ)
    → selection.pop comp xs ≡ some (t, rest)
    → length xs ≡ suc (length rest)
unfolding selection
selection-length comp [] t rest e = cc
selection-length comp (x ∷ xs) t rest e = ground (arith, select-length comp x xs)
