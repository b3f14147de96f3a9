-- ===== src/Core/Lifetime/Pointers.antt =====
-- include/cxxdes/misc/reference_counted.hpp: what an operation on a pointer leaves at the others.
use libcxxdes.Base.{
  ap, sym, ◌∙◌, ℕ, zero, suc, ◌<◌, ◌≡◌, refl, Bool-cases, inl, inr, true, Option, none, some, List,
  [], ◌∷◌, ◌++◌, length, arith, length-append,
}
use libcxxdes.Misc.RefCount
use libcxxdes.Misc.RefCount.{
  Memory, get, set, same, ref_ptr, unref_ptr, set_ptr, construct, copy_assign, move_assign,
  copy_construct, move_construct,
}
use libcxxdes.Misc.RefCount.Holders.{holders, holders-get}

pub get-inside : (i o : ℕ) (ps : List (Option ℕ)) → get i ps ≡ some o → i < length ps
unfolding get
get-inside i o [] h = ground (arith, h)
get-inside zero o (p ∷ ps) h = omega arith
get-inside (suc i) o (p ∷ ps) h = omega (arith, get-inside i o ps h)

pub get-append : (i o : ℕ) (ps qs : List (Option ℕ)) → get i ps ≡ some o → get i (ps ++ qs) ≡ some o
unfolding get
get-append i o [] qs h = ground (arith, h)
get-append zero o (p ∷ ps) qs h = h
get-append (suc i) o (p ∷ ps) qs h = get-append i o ps qs h

pub get-last : (p : Option ℕ) (ps : List (Option ℕ)) → get (length ps) (ps ++ p ∷ []) ≡ p
unfolding get
get-last p [] = refl
get-last p (q ∷ ps) = get-last p ps

-- A pointer is counted.
pub held_by : (i o : ℕ) (ps : List (Option ℕ)) → get i ps ≡ some o → 0 < holders o ps
held_by i o ps h = ground (arith, holders-get o i ps, h)

pub unref_ptr-pointers : (p : Option ℕ) (m : Memory) → (unref_ptr p m).pointers ≡ m.pointers
unfolding unref_ptr
unref_ptr-pointers none m = refl
unref_ptr-pointers (some o) m = refl

pub ref_ptr-pointers : (p : Option ℕ) (m : Memory) → (ref_ptr p m).pointers ≡ m.pointers
unfolding ref_ptr
ref_ptr-pointers none m = refl
ref_ptr-pointers (some o) m = refl

pub destroy-pointers :
    (i : ℕ) (m : Memory) → (RefCount.destroy i m).pointers ≡ set i none m.pointers
unfolding RefCount.destroy set_ptr
destroy-pointers i m = ap (set i none) (unref_ptr-pointers (get i m.pointers) m)

pub construct-pointers :
    (p : Option ℕ) (m : Memory) → (construct p m).pointers ≡ m.pointers ++ p ∷ []
unfolding construct
construct-pointers p m = ref_ptr-pointers p _

set-get : (i : ℕ) (p : Option ℕ) (ps : List (Option ℕ)) → p ≡ get i ps → set i p ps ≡ ps
unfolding set get
set-get i p [] h = refl
set-get zero p (q ∷ ps) h = ap (λ x. x ∷ ps) h
set-get (suc i) p (q ∷ ps) h = ap (λ qs. q ∷ qs) (set-get i p ps h)

same-eq : (p q : Option ℕ) → same p q ≡ true → q ≡ p
unfolding same
same-eq none none h = refl
same-eq none (some b) h = ground (arith, h)
same-eq (some a) none h = ground (arith, h)
same-eq (some a) (some b) h = ground (arith, h)

pub copy_assign-pointers :
    (i j : ℕ) (m : Memory) → (copy_assign i j m).pointers ≡ set i (get j m.pointers) m.pointers
unfolding copy_assign set_ptr
copy_assign-pointers i j m = elim (Bool-cases (same (get i m.pointers) (get j m.pointers))) [
  | inl e ↦ rw e (sym (set-get i (get j m.pointers) m.pointers (same-eq _ _ e)))
  | inr e ↦ rw e (
      ref_ptr-pointers (get j m.pointers) _
      ∙ ap (set i (get j m.pointers)) (unref_ptr-pointers (get i m.pointers) m))
]

pub move_assign-pointers :
    (i j : ℕ) (m : Memory)
    → (move_assign i j m).pointers ≡ set j (get i m.pointers) (set i (get j m.pointers) m.pointers)
unfolding move_assign set_ptr
move_assign-pointers i j m = refl

pub length-add : (p : Option ℕ) (ps : List (Option ℕ)) → length (ps ++ p ∷ []) ≡ suc (length ps)
length-add p ps = omega (arith, length-append ps (p ∷ []))
