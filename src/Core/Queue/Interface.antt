-- ===== src/Core/Queue/Interface.antt =====
-- `std::priority_queue`, as include/cxxdes/core/impl/environment.ipp uses it: the contents in no
-- particular order, and the removal of an element that the comparator puts first. Which one of
-- several equals comes first is left open.
use libcxxdes.Base.{ℕ, ◌≡◌, Bool, false, List, [], ◌∷◌, Option, none, some, count, In}
use libcxxdes.Core.Token.Order.{IsStrictWeakOrder}

pub record PriorityQueue : Type 1 where
  pub pop : (ℕ → ℕ → Bool) → List ℕ → Option (ℕ × List ℕ)
  pub pop-nil : (comp : ℕ → ℕ → Bool) → pop comp [] ≡ none
  pub pop-cons :
      (comp : ℕ → ℕ → Bool) (x : ℕ) (xs : List ℕ)
      → (t : ℕ) × (rest : List ℕ) × (pop comp (x ∷ xs) ≡ some (t, rest))
  pub pop-count :
      (comp : ℕ → ℕ → Bool) (xs : List ℕ) (t : ℕ) (rest : List ℕ)
      → pop comp xs ≡ some (t, rest)
      → (i : ℕ) → count i (t ∷ rest) ≡ count i xs
  pub pop-first :
      (P : ℕ → Type 0) (comp : ℕ → ℕ → Bool) (xs : List ℕ) (t : ℕ) (rest : List ℕ)
      → IsStrictWeakOrder P comp
      → ((i : ℕ) → In i xs → P i)
      → pop comp xs ≡ some (t, rest)
      → (i : ℕ) → In i rest
      → comp t i ≡ false
