-- ===== src/Misc/RefCount/Holders.antt =====
-- include/cxxdes/misc/reference_counted.hpp: the pointers to an object, counted along a list of
-- pointers.
use libcxxdes.Base.{
  ap, ℕ, zero, suc, ◌+◌, ◌<◌, ◌≤◌, ◌≡◌, refl, false, Option, none, some, List, [], ◌∷◌, ◌++◌,
  if◌then◌else◌, ◌==◌, length, arith,
}
use libcxxdes.Misc.RefCount.Defs.{get, set, same}

abbrev pub points : ℕ → Option ℕ → ℕ
points o none = 0
points o (some a) = if a == o then 1 else 0

-- The pointers to an object.
abbrev pub holders : ℕ → List (Option ℕ) → ℕ
holders o [] = 0
holders o (p ∷ ps) = points o p + holders o ps

pub holders-append :
    (o : ℕ) (ps : List (Option ℕ)) (p : Option ℕ)
    → holders o (ps ++ p ∷ []) ≡ holders o ps + points o p
holders-append o [] p = omega arith
holders-append o (q ∷ ps) p = omega (arith, holders-append o ps p)

pub holders-set :
    (o i : ℕ) (p : Option ℕ) (ps : List (Option ℕ))
    → i < length ps
    → holders o (set i p ps) + points o (get i ps) ≡ holders o ps + points o p
unfolding set get
holders-set o i p [] h = absurd (omega arith)
holders-set o zero p (q ∷ ps) h = omega arith
holders-set o (suc i) p (q ∷ ps) h = omega (arith, holders-set o i p ps (omega arith))

pub holders-get : (o i : ℕ) (ps : List (Option ℕ)) → points o (get i ps) ≤ holders o ps
unfolding get
holders-get o i [] = omega arith
holders-get o zero (q ∷ ps) = omega arith
holders-get o (suc i) (q ∷ ps) = omega (arith, holders-get o i ps)

pub length-set : (i : ℕ) (p : Option ℕ) (ps : List (Option ℕ)) → length (set i p ps) ≡ length ps
unfolding set
length-set i p [] = refl
length-set zero p (q ∷ ps) = refl
length-set (suc i) p (q ∷ ps) = omega (arith, length-set i p ps)

pub get-set :
    (i j : ℕ) (p : Option ℕ) (ps : List (Option ℕ))
    → i < length ps
    → get j (set i p ps) ≡ (if i == j then p else get j ps)
unfolding set get
get-set i j p [] h = absurd (omega arith)
get-set zero zero p (q ∷ ps) h = refl
get-set zero (suc j) p (q ∷ ps) h = ground arith
get-set (suc i) zero p (q ∷ ps) h = ground arith
get-set (suc i) (suc j) p (q ∷ ps) h = ground (arith, get-set i j p ps)

pub different : (p q : Option ℕ) (o : ℕ) → same p q ≡ false → points o p + points o q ≤ 1
unfolding same
different none none o e = omega arith
different none (some b) o e = ground arith
different (some a) none o e = ground arith
different (some a) (some b) o e = ground arith

pub holders-swap :
    (o i j : ℕ) (ps : List (Option ℕ))
    → i < length ps
    → j < length ps
    → holders o (set j (get i ps) (set i (get j ps) ps)) ≡ holders o ps
holders-swap o i j ps hi hj = omega (
  arith,
  holders-set o i (get j ps) ps hi,
  holders-set o j (get i ps) (set i (get j ps) ps) (omega (arith, length-set i (get j ps) ps)),
  ap (points o) seen,
)
  where
    seen : get j (set i (get j ps) ps) ≡ get j ps
    seen = ground (arith, get-set i j (get j ps) ps)
