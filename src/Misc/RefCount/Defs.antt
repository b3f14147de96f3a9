-- ===== src/Misc/RefCount/Defs.antt =====
-- include/cxxdes/misc/reference_counted.hpp: `reference_counted_base` and `ptr`. The pointers of a
-- program are a list, and a `ptr` is a position in it; an object is a number. What an object's own
-- destructor releases is not part of the library.
use libcxxdes.Base.{
  ℕ, zero, suc, ◌-◌, Bool, true, false, Option, none, some, List, [], ◌∷◌, ◌++◌, if◌then◌else◌,
  ◌==◌, update, length,
}

pub record Memory : Type 0 where
  pub references : ℕ → ℕ
  pub deleted : ℕ → Bool
  pub pointers : List (Option ℕ)

-- The pointer at a position; null outside the list.
unfoldable pub get : ℕ → List (Option ℕ) → Option ℕ
get i [] = none
get zero (p ∷ ps) = p
get (suc i) (p ∷ ps) = get i ps

unfoldable pub set : ℕ → Option ℕ → List (Option ℕ) → List (Option ℕ)
set i v [] = []
set zero v (p ∷ ps) = v ∷ ps
set (suc i) v (p ∷ ps) = p ∷ set i v ps

-- `ptr_ == other.ptr_`
unfoldable pub same : Option ℕ → Option ℕ → Bool
same none none = true
same none (some b) = false
same (some a) none = false
same (some a) (some b) = a == b

-- `ref`, and `unref` with the deletion at 0; the count of a deleted object stays at 0.
unfoldable pub ref : ℕ → Memory → Memory
ref o m = record m { references = update m.references o (suc (m.references o)) }

unfoldable pub unref : ℕ → Memory → Memory
unref o m = record m {
  references = update m.references o (m.references o - 1);
  deleted = if m.references o - 1 == 0 then update m.deleted o true else m.deleted;
}

-- `if (ptr_) ptr_->ref();` and `if (ptr_) ptr_->unref();`
unfoldable pub ref_ptr : Option ℕ → Memory → Memory
unfolding ref
ref_ptr none m = m
ref_ptr (some o) m = ref o m

unfoldable pub unref_ptr : Option ℕ → Memory → Memory
unfolding unref
unref_ptr none m = m
unref_ptr (some o) m = unref o m

-- `ptr(T *p)`: a new pointer at the end of the list.
unfoldable pub construct : Option ℕ → Memory → Memory
unfolding ref_ptr
construct p m = ref_ptr p (record m { pointers = m.pointers ++ p ∷ [] })

unfoldable pub set_ptr : ℕ → Option ℕ → Memory → Memory
unfolding set
set_ptr i p m = record m { pointers = set i p m.pointers }

-- `operator=(const ptr &)`
unfoldable pub copy_assign : ℕ → ℕ → Memory → Memory
unfolding get same ref_ptr unref_ptr set_ptr
copy_assign i j m =
    let target = get i m.pointers in
    let other = get j m.pointers in
    if same target other then m else ref_ptr other (set_ptr i other (unref_ptr target m))

-- `operator=(ptr &&)`: the two swap.
unfoldable pub move_assign : ℕ → ℕ → Memory → Memory
unfolding get set_ptr
move_assign i j m =
    let target = get i m.pointers in
    let other = get j m.pointers in set_ptr j target (set_ptr i other m)

-- The copy and the move constructor: a null pointer that is assigned to.
unfoldable pub copy_construct : ℕ → Memory → Memory
unfolding construct copy_assign
copy_construct j m = copy_assign (length m.pointers) j (construct none m)

unfoldable pub move_construct : ℕ → Memory → Memory
unfolding construct move_assign
move_construct j m = move_assign (length m.pointers) j (construct none m)

-- `~ptr()`: its position holds null from then on.
unfoldable pub destroy : ℕ → Memory → Memory
unfolding get unref_ptr set_ptr
destroy i m = set_ptr i none (unref_ptr (get i m.pointers) m)
