-- ===== src/Misc/RefCount/Laws.antt =====
-- include/cxxdes/misc/reference_counted.hpp: the count of an object is the number of its pointers.
use mathlib.Core.Path.{subst}
use libcxxdes.Base.{
  ℕ, suc, ◌+◌, ◌<◌, ◌≤◌, ◌≡◌, refl, true, false, Option, none, some, [], ◌∷◌, length, arith,
  length-append, Bool-cases, Option-cases, inl, inr,
}
use libcxxdes.Misc.RefCount.Defs.{
  Memory, get, set, same, ref_ptr, unref_ptr, set_ptr, construct, copy_assign, move_assign,
  copy_construct, move_construct, destroy,
}
use libcxxdes.Misc.RefCount.Holders.{
  points, holders, holders-append, holders-set, holders-get, different, holders-swap,
}

-- Every count is the number of pointers to the object, and no pointer leads to a deleted object.
pub record IsCounted (m : Memory) : Type 0 where
  pub counted : (o : ℕ) → m.references o ≡ holders o m.pointers
  pub no_dangling : (o : ℕ) → 0 < holders o m.pointers → m.deleted o ≡ false

-- What an assignment does to the counts, as one change of the pointer at `i`.
assign : ℕ → Option ℕ → Memory → Memory
assign i p m = ref_ptr p (set_ptr i p (unref_ptr (get i m.pointers) m))

assign-references :
    (i : ℕ) (p : Option ℕ) (m : Memory) (o : ℕ)
    → IsCounted m
    → (assign i p m).references o + points o (get i m.pointers) ≡ m.references o + points o p
unfolding assign ref_ptr unref_ptr set_ptr
assign-references i p m o ok = elim (Option-cases (get i m.pointers)) [
  | inl e ↦ elim (Option-cases p) [
    | inl f ↦ rw (e, f) (omega arith)
    | inr (b, f) ↦ rw (e, f) (ground arith)
  ]
  | inr (a, e) ↦ elim (Option-cases p) [
    | inl f ↦ ground (arith, e, f, ok.counted o, holders-get o i m.pointers)
    | inr (b, f) ↦ ground (arith, e, f, ok.counted o, holders-get o i m.pointers)
  ]
]

assign-deleted :
    (i : ℕ) (p : Option ℕ) (m : Memory) (o : ℕ)
    → IsCounted m
    → m.deleted o ≡ false
    → points o (get i m.pointers) < holders o m.pointers
    → (assign i p m).deleted o ≡ false
unfolding assign ref_ptr unref_ptr set_ptr
assign-deleted i p m o ok alive more = elim (Option-cases (get i m.pointers)) [
  | inl e ↦ elim (Option-cases p) [
    | inl f ↦ ground (arith, e, f)
    | inr (b, f) ↦ ground (arith, e, f)
  ]
  | inr (a, e) ↦ elim (Option-cases p) [
    | inl f ↦ ground (arith, e, f, ok.counted o)
    | inr (b, f) ↦ ground (arith, e, f, ok.counted o)
  ]
]

assign-pointers : (i : ℕ) (p : Option ℕ) (m : Memory) → (assign i p m).pointers ≡ set i p m.pointers
unfolding assign ref_ptr unref_ptr set_ptr
assign-pointers i p m = elim (Option-cases (get i m.pointers)) [
  | inl e ↦ elim (Option-cases p) [
    | inl f ↦ ground (arith, e, f)
    | inr (b, f) ↦ ground (arith, e, f)
  ]
  | inr (a, e) ↦ elim (Option-cases p) [
    | inl f ↦ ground (arith, e, f)
    | inr (b, f) ↦ ground (arith, e, f)
  ]
]

assign-IsCounted :
    (i : ℕ) (p : Option ℕ) (m : Memory)
    → IsCounted m
    → i < length m.pointers
    → ((o : ℕ) → points o (get i m.pointers) + points o p ≤ 1)
    → ((o : ℕ) → points o p ≤ holders o m.pointers)
    → IsCounted (assign i p m)
assign-IsCounted i p m ok inside apart held = record {
  counted = λ o. rw (assign-pointers i p m) (
      omega
        (arith, assign-references i p m o ok, holders-set o i p m.pointers inside, ok.counted o));
  no_dangling = λ o h.
      let some_left : 0 < holders o (set i p m.pointers) =
        subst (λ ps. 0 < holders o ps) (assign-pointers i p m) h in
      assign-deleted i p m o ok
        (ok.no_dangling o (
          omega (
            arith,
            held o,
            holders-get o i m.pointers,
            holders-set o i p m.pointers inside,
            apart o,
          )))
        (omega (
          arith,
          held o,
          holders-get o i m.pointers,
          holders-set o i p m.pointers inside,
          apart o,
        ));
}

copy_assign-IsCounted :
    (i j : ℕ) (m : Memory) → IsCounted m → i < length m.pointers → IsCounted (copy_assign i j m)
unfolding copy_assign assign
copy_assign-IsCounted i j m ok inside =
    elim (Bool-cases (same (get i m.pointers) (get j m.pointers))) [
      | inl e ↦ rw e ok
      | inr e ↦ rw e (
          assign-IsCounted i (get j m.pointers) m ok inside (λ o. different _ _ o e)
            (λ o. holders-get o j m.pointers))
    ]

destroy-IsCounted :
    (i : ℕ) (m : Memory) → IsCounted m → i < length m.pointers → IsCounted (destroy i m)
unfolding destroy assign ref_ptr
destroy-IsCounted i m ok inside =
    assign-IsCounted i none m ok inside (λ o. points-le o (get i m.pointers)) (λ o. omega arith)
  where
    points-le : (o : ℕ) (q : Option ℕ) → points o q + 0 ≤ 1
    points-le o none = omega arith
    points-le o (some a) = ground arith

move_assign-IsCounted :
    (i j : ℕ) (m : Memory)
    → IsCounted m
    → i < length m.pointers
    → j < length m.pointers
    → IsCounted (move_assign i j m)
unfolding move_assign
move_assign-IsCounted i j m ok hi hj = record {
  counted = λ o. rw (holders-swap o i j m.pointers hi hj) (ok.counted o);
  no_dangling = λ o h. ok.no_dangling o (omega (arith, holders-swap o i j m.pointers hi hj));
}

construct-IsCounted :
    (p : Option ℕ) (m : Memory)
    → IsCounted m
    → ((o : ℕ) → 0 < points o p → m.deleted o ≡ false)
    → IsCounted (construct p m)
unfolding construct
construct-IsCounted none m ok alive = record {
  counted = λ o. omega (arith, holders-append o m.pointers none, ok.counted o);
  no_dangling = λ o h. ok.no_dangling o (omega (arith, holders-append o m.pointers none));
}
construct-IsCounted (some a) m ok alive = record {
  counted = λ o. ground (arith, holders-append o m.pointers (some a), ok.counted o);
  no_dangling =
      λ o h. ground (arith, holders-append o m.pointers (some a), ok.no_dangling o, alive o);
}

-- One operation on the pointers of a program; a raw pointer is taken over while its object lives.
pub data Step (m : Memory) : Memory → Type 0 where
  from_raw : (o : ℕ) → m.deleted o ≡ false → Step m (construct (some o) m)
  from_null : Step m (construct none m)
  copied : (i j : ℕ) → i < length m.pointers → Step m (copy_assign i j m)
  moved : (i j : ℕ) → i < length m.pointers → j < length m.pointers → Step m (move_assign i j m)
  destroyed : (i : ℕ) → i < length m.pointers → Step m (destroy i m)
  copy_constructed : (j : ℕ) → j < length m.pointers → Step m (copy_construct j m)
  move_constructed : (j : ℕ) → j < length m.pointers → Step m (move_construct j m)

pub data Reach : Memory → Type 0 where
  here : Reach (record { references = λ o. 0; deleted = λ o. false; pointers = [] })
  later : {m n : Memory} → Reach m → Step m n → Reach n

constructed_null : (m : Memory) → IsCounted m → IsCounted (construct none m)
constructed_null m ok = construct-IsCounted none m ok (λ o h. absurd (omega arith))

longer : (m : Memory) → length (construct none m).pointers ≡ suc (length m.pointers)
unfolding construct
longer m = omega (arith, length-append m.pointers (none ∷ []))

-- Each operation keeps the counts right.
pub Step-IsCounted : {m n : Memory} → Step m n → IsCounted m → IsCounted n
unfolding copy_construct move_construct
Step-IsCounted {m} (from_raw o alive) ok =
    construct-IsCounted (some o) m ok (λ i h. let e : o ≡ i = ground arith in rw (← e) alive)
Step-IsCounted {m} from_null ok = constructed_null m ok
Step-IsCounted {m} (copied i j h) ok = copy_assign-IsCounted i j m ok h
Step-IsCounted {m} (moved i j h k) ok = move_assign-IsCounted i j m ok h k
Step-IsCounted {m} (destroyed i h) ok = destroy-IsCounted i m ok h
Step-IsCounted {m} (copy_constructed j h) ok =
    copy_assign-IsCounted (length m.pointers) j (construct none m) (constructed_null m ok)
      (omega (arith, longer m))
Step-IsCounted {m} (move_constructed j h) ok =
    move_assign-IsCounted (length m.pointers) j (construct none m) (constructed_null m ok)
      (omega (arith, longer m)) (omega (arith, longer m))

-- In every state that constructions, assignments, moves and destructions of pointers can reach, in
-- any order, raw pointers being taken over from living objects only: the count of an object is the
-- number of its pointers, and no pointer leads to a deleted object.
pub Reach-IsCounted : {m : Memory} → Reach m → IsCounted m
Reach-IsCounted here = record { counted = λ o. refl; no_dangling = λ o h. refl }
Reach-IsCounted (later r s) = Step-IsCounted s (Reach-IsCounted r)

-- Where every count is the number of pointers, the destruction of the last pointer to an object
-- deletes the object.
pub destroy-last :
    (i o : ℕ) (m : Memory)
    → IsCounted m
    → get i m.pointers ≡ some o
    → holders o m.pointers ≡ 1
    → (destroy i m).deleted o ≡ true
unfolding destroy
destroy-last i o m ok e one = ground (arith, ok.counted o)
