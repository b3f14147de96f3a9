-- ===== src/Core/Lifetime/Operations.antt =====
-- include/cxxdes/core/impl/coroutine.ipp: the operations on handles, and the end of a frame.
use mathlib.Core.Path.{subst}
use libcxxdes.Base.{
  ap, sym, ◌∙◌, ℕ, ◌+◌, ◌<◌, ◌≤◌, ◌≡◌, true, false, Bool-cases, inl, inr, Option, Option-cases,
  none, some, List, ◌==◌, length, arith, ◌&&◌, not,
}
use libcxxdes.Misc.RefCount
use libcxxdes.Misc.RefCount.{
  Memory, get, set, construct, copy_construct, copy_assign, move_construct, move_assign,
}
use libcxxdes.Misc.RefCount.Holders.{points, holders, holders-get, length-set}
use libcxxdes.Misc.RefCount.Laws.{
  IsCounted, Step-IsCounted, from_raw, from_null, copied, moved, destroyed, copy_constructed,
  move_constructed,
}
use libcxxdes.Core.Lifetime.Defs.{
  Heap, destroy_frame, destroy_if_not_started, copy_handle, assign_handle, move_handle,
  move_assign_handle, drop, destroy_handle, refer,
}
use libcxxdes.Core.Lifetime.Pointers.{
  get-inside, get-last, held_by, destroy-pointers, construct-pointers, copy_assign-pointers,
  move_assign-pointers, length-add,
}
use libcxxdes.Core.Lifetime.Owned.{
  IsOwned, NotPromise, set-IsOwned, append-IsOwned, swap-IsOwned, without_frame, end-IsOwned,
  last-IsOwned,
}

pub record IsManaged (s : Heap) : Type 0 where
  pub counted : IsCounted s.memory
  pub owned : IsOwned s s.memory.pointers
  pub uncalled : (o : ℕ) → s.created ≤ o → (s.has_frame o ≡ false) × (s.started o ≡ false)
  pub safe : s.crashed ≡ false

-- Other pointers, and the same coroutines.
with_memory :
    (m : Memory) (s : Heap)
    → IsManaged s
    → IsCounted m
    → IsOwned s m.pointers
    → IsManaged (record s { memory = m })
with_memory m s ok counted owned = record {
  counted = counted;
  owned = record { promised = owned.promised; held = owned.held; released = owned.released };
  uncalled = ok.uncalled;
  safe = ok.safe;
}

-- Another handle of the coroutine is left when the one at `i` goes, unless it has been started.
abbrev pub Spare : Heap → ℕ → Type 0
Spare s i =
    (o : ℕ) → get i s.memory.pointers ≡ some o → s.started o ≡ false → 2 < s.memory.references o

module _ (s : Heap) (ok : IsManaged s) where
  pub drop-IsManaged :
      (i : ℕ)
      → i < length s.memory.pointers
      → NotPromise s i
      → ((o : ℕ)
          → s.has_frame o ≡ true
          → s.started o ≡ false
          → 2 + points o (get i s.memory.pointers) ≤ holders o s.memory.pointers)
      → IsManaged (drop i s)
  unfolding drop
  drop-IsManaged i inside apart kept =
      with_memory (RefCount.destroy i s.memory) s ok
        (Step-IsCounted (destroyed i inside) ok.counted)
        (subst (IsOwned s) (sym (destroy-pointers i s.memory)) (
          set-IsOwned s s.memory.pointers ok.owned i none inside apart
            (λ o f n. omega (arith, kept o f n)) (λ o n. omega arith)))

  pub refer-IsManaged :
      (o : ℕ) → s.started o ≡ true → s.memory.deleted o ≡ false → IsManaged (refer o s)
  unfolding refer
  refer-IsManaged o running alive =
      with_memory (construct (some o) s.memory) s ok (Step-IsCounted (from_raw o alive) ok.counted)
        (subst (IsOwned s) (sym (construct-pointers (some o) s.memory)) (
          append-IsOwned s s.memory.pointers ok.owned (some o) (λ a n. ground (arith, running, n))))

  null-IsOwned : IsOwned s (construct none s.memory).pointers
  null-IsOwned =
      subst (IsOwned s) (sym (construct-pointers none s.memory))
        (append-IsOwned s s.memory.pointers ok.owned none (λ a n. omega arith))

  null-IsCounted : IsCounted (construct none s.memory)
  null-IsCounted = Step-IsCounted from_null ok.counted

  null-inside : length s.memory.pointers < length (construct none s.memory).pointers
  null-inside =
      omega (arith, ap length (construct-pointers none s.memory), length-add none s.memory.pointers)

  null-last : get (length s.memory.pointers) (construct none s.memory).pointers ≡ none
  null-last =
      ap (get (length s.memory.pointers)) (construct-pointers none s.memory)
      ∙ get-last none s.memory.pointers

  null-NotPromise : NotPromise s (length s.memory.pointers)
  null-NotPromise o f e =
      absurd
        (omega (arith, get-inside (s.promise o) o s.memory.pointers (ok.owned.promised o f), e))

  pub copy_handle-IsManaged : (j : ℕ) → j < length s.memory.pointers → IsManaged (copy_handle j s)
  unfolding copy_handle copy_construct
  copy_handle-IsManaged j inside =
      let ps : List (Option ℕ) = (construct none s.memory).pointers in
      with_memory (copy_construct j s.memory) s ok
        (Step-IsCounted (copy_constructed j inside) ok.counted)
        (subst (IsOwned s)
          (sym (copy_assign-pointers (length s.memory.pointers) j (construct none s.memory)))
          (set-IsOwned s ps null-IsOwned (length s.memory.pointers) (get j ps) null-inside
            null-NotPromise
            (λ o f n. omega (arith, ap (points o) null-last, null-IsOwned.held o f n))
            (λ o n. holders-get o j ps)))

  pub move_handle-IsManaged :
      (j : ℕ) → j < length s.memory.pointers → NotPromise s j → IsManaged (move_handle j s)
  unfolding move_handle move_construct
  move_handle-IsManaged j inside apart =
      let ps : List (Option ℕ) = (construct none s.memory).pointers in
      with_memory (move_construct j s.memory) s ok
        (Step-IsCounted (move_constructed j inside) ok.counted)
        (subst (IsOwned s)
          (sym (move_assign-pointers (length s.memory.pointers) j (construct none s.memory)))
          (swap-IsOwned s ps null-IsOwned (length s.memory.pointers) j null-inside
            (omega (arith, null-inside, inside)) null-NotPromise apart))

  pub move_assign_handle-IsManaged :
      (i j : ℕ)
      → i < length s.memory.pointers
      → j < length s.memory.pointers
      → NotPromise s i
      → NotPromise s j
      → IsManaged (move_assign_handle i j s)
  unfolding move_assign_handle
  move_assign_handle-IsManaged i j hi hj apart apart' = elim (Bool-cases (i == j)) [
    | inl e ↦ rw e ok
    | inr e ↦ rw e (
        with_memory (move_assign i j s.memory) s ok (Step-IsCounted (moved i j hi hj) ok.counted) (
          subst (IsOwned s) (sym (move_assign-pointers i j s.memory))
            (swap-IsOwned s s.memory.pointers ok.owned i j hi hj apart apart')))
  ]

  another_left :
      (i o : ℕ)
      → Spare s i
      → s.has_frame o ≡ true
      → s.started o ≡ false
      → 2 + points o (get i s.memory.pointers) ≤ holders o s.memory.pointers
  another_left i o spare f n = elim (Option-cases (get i s.memory.pointers)) [
    | inl e ↦ omega (arith, ap (points o) e, ok.owned.held o f n)
    | inr (a, e) ↦ elim (Bool-cases (a == o)) [
      | inl g ↦
          let same : a ≡ o = ground arith in
          ground (arith, ap (points o) e, spare o (e ∙ ap some same) n, ok.counted.counted o)
      | inr g ↦ ground (arith, ap (points o) e, ok.owned.held o f n)
    ]
  ]

  pub assign_handle-IsManaged :
      (i j : ℕ)
      → i < length s.memory.pointers
      → NotPromise s i
      → Spare s i
      → IsManaged (assign_handle i j s)
  unfolding assign_handle
  assign_handle-IsManaged i j inside apart spare = elim (Bool-cases (i == j)) [
    | inl e ↦ rw e ok
    | inr e ↦ rw e (
        with_memory (copy_assign i j s.memory) s ok (Step-IsCounted (copied i j inside) ok.counted)
          (subst (IsOwned s) (sym (copy_assign-pointers i j s.memory)) (
            set-IsOwned s s.memory.pointers ok.owned i (get j s.memory.pointers) inside apart
              (λ o f n. omega (arith, another_left i o spare f n))
              (λ o n. holders-get o j s.memory.pointers))))
  ]

  pub destroy_frame-IsManaged :
      (o : ℕ) → s.started o ≡ true → s.has_frame o ≡ true → IsManaged (destroy_frame o s)
  unfolding destroy_frame
  destroy_frame-IsManaged o running f =
      let inside = get-inside (s.promise o) o s.memory.pointers (ok.owned.promised o f) in
      let owned =
        subst (IsOwned (without_frame o s)) (sym (destroy-pointers (s.promise o) s.memory))
          (end-IsOwned s s.memory.pointers ok.owned o f running inside) in
      rw f (record {
        counted = Step-IsCounted (destroyed (s.promise o) inside) ok.counted;
        owned = record { promised = owned.promised; held = owned.held; released = owned.released };
        uncalled = λ a h. (ground (arith, ok.uncalled a h), (ok.uncalled a h).1);
        safe = ok.safe;
      })

  -- The last handle of a coroutine that has not been started takes its frame with it.
  last_handle-IsManaged :
      (i o : ℕ)
      → i < length s.memory.pointers
      → NotPromise s i
      → get i s.memory.pointers ≡ some o
      → s.has_frame o ≡ true
      → s.memory.references o ≡ 2
      → IsManaged (drop i (destroy_frame o s))
  unfolding destroy_frame drop
  last_handle-IsManaged i o here apart e f two =
      let inside = get-inside (s.promise o) o s.memory.pointers (ok.owned.promised o f) in
      let pointers : (RefCount.destroy i (RefCount.destroy (s.promise o) s.memory)).pointers
          ≡ set i none (set (s.promise o) none s.memory.pointers) =
        destroy-pointers i (RefCount.destroy (s.promise o) s.memory)
        ∙ ap (set i none) (destroy-pointers (s.promise o) s.memory) in
      let owned = subst (IsOwned (without_frame o s)) (sym pointers) (
        last-IsOwned s s.memory.pointers ok.owned o f i inside here apart e
          (sym (ok.counted.counted o) ∙ two)) in
      rw f (record {
        counted =
            Step-IsCounted
              (destroyed i (
                omega (
                  arith,
                  ap length (destroy-pointers (s.promise o) s.memory),
                  length-set (s.promise o) none s.memory.pointers,
                )))
              (Step-IsCounted (destroyed (s.promise o) inside) ok.counted);
        owned = record { promised = owned.promised; held = owned.held; released = owned.released };
        uncalled = λ a h. (ground (arith, ok.uncalled a h), (ok.uncalled a h).1);
        safe = ok.safe;
      })

  pub destroy_handle-IsManaged :
      (i : ℕ) → i < length s.memory.pointers → NotPromise s i → IsManaged (destroy_handle i s)
  unfolding destroy_handle destroy_if_not_started
  destroy_handle-IsManaged i inside apart = elim (Option-cases (get i s.memory.pointers)) [
    | inl e ↦
        rw (destroy_handle, e)
          (drop-IsManaged i inside apart
            (λ o f n. omega (arith, ap (points o) e, ok.owned.held o f n)))
    | inr (o, e) ↦ elim (Bool-cases (s.memory.references o == 2 && not (s.started o))) [
      | inl t ↦
          rw (destroy_handle, e, destroy_if_not_started, t)
            (last_handle-IsManaged i o inside apart e
              (framed o (held_by i o s.memory.pointers e) (ground (arith, t))) (ground (arith, t)))
      | inr t ↦
          rw (destroy_handle, e, destroy_if_not_started, t)
            (drop-IsManaged i inside apart (λ a f n.
              ground (arith, ap (points a) e, t, ok.owned.held a f n, ok.counted.counted a)))
    ]
  ]
    where
      framed :
          (o : ℕ) → 0 < holders o s.memory.pointers → s.started o ≡ false → s.has_frame o ≡ true
      framed o h n = ground (arith, ok.owned.released o)
