-- ===== src/Core/Lifetime/Laws.antt =====
-- include/cxxdes/core/impl/coroutine.ipp: the frames and the state of coroutines, over any
-- sequence of operations.
use libcxxdes.Base.{
  ap, sym, ◌∙◌, ℕ, ◌<◌, ◌≤◌, ◌≡◌, ◌≢◌, refl, true, false, Bool-cases, inl, inr, Option, none, some,
  List, [], ◌==◌, length, arith,
}
use libcxxdes.Misc.RefCount.{get, set}
use libcxxdes.Misc.RefCount.Holders.{points, holders, holders-set, get-set}
use libcxxdes.Core.Lifetime.Defs.{
  Heap, call, destroy_frame, copy_handle, assign_handle, move_handle, move_assign_handle, drop,
  destroy_handle, refer, bind_handle,
}
use libcxxdes.Core.Lifetime.Pointers.{get-inside, held_by, copy_assign-pointers}
use libcxxdes.Core.Lifetime.Owned.{NotPromise}
use libcxxdes.Core.Lifetime.Operations.{
  IsManaged, Spare, refer-IsManaged, copy_handle-IsManaged, move_handle-IsManaged,
  move_assign_handle-IsManaged, assign_handle-IsManaged, destroy_frame-IsManaged,
  destroy_handle-IsManaged, drop-IsManaged,
}
use libcxxdes.Core.Lifetime.Starts.{known, bind_handle-IsManaged, call-IsManaged}

-- One operation of a program on its coroutines. A handle is a pointer that is no promise's.
pub data Step (s : Heap) : Heap → Type 0 where
  called : Step s (call s)
  copied : (j : ℕ) → j < length s.memory.pointers → Step s (copy_handle j s)
  moved : (j : ℕ) → j < length s.memory.pointers → NotPromise s j → Step s (move_handle j s)
  copy_assigned :
      (i j : ℕ)
      → i < length s.memory.pointers
      → NotPromise s i
      → Spare s i
      → Step s (assign_handle i j s)
  move_assigned :
      (i j : ℕ)
      → i < length s.memory.pointers
      → j < length s.memory.pointers
      → NotPromise s i
      → NotPromise s j
      → Step s (move_assign_handle i j s)
  destroyed : (i : ℕ) → i < length s.memory.pointers → NotPromise s i → Step s (destroy_handle i s)
  bound : (i o : ℕ) → get i s.memory.pointers ≡ some o → Step s (bind_handle i s)
  referred : (o : ℕ) → s.started o ≡ true → s.memory.deleted o ≡ false → Step s (refer o s)
  dropped :
      (i o : ℕ)
      → get i s.memory.pointers ≡ some o
      → s.started o ≡ true
      → NotPromise s i
      → Step s (drop i s)
  ended : (o : ℕ) → s.started o ≡ true → s.has_frame o ≡ true → Step s (destroy_frame o s)

abbrev pub no_coroutines : Heap
no_coroutines = record {
  memory = record { references = λ o. 0; deleted = λ o. false; pointers = [] };
  created = 0;
  promise = λ o. 0;
  has_frame = λ o. false;
  started = λ o. false;
  crashed = false;
}

pub data Reach : Heap → Type 0 where
  here : Reach no_coroutines
  later : {s t : Heap} → Reach s → Step s t → Reach t

Step-IsManaged : {s t : Heap} → Step s t → IsManaged s → IsManaged t
Step-IsManaged {s} called ok = call-IsManaged s ok
Step-IsManaged {s} (copied j h) ok = copy_handle-IsManaged s ok j h
Step-IsManaged {s} (moved j h a) ok = move_handle-IsManaged s ok j h a
Step-IsManaged {s} (copy_assigned i j h a spare) ok = assign_handle-IsManaged s ok i j h a spare
Step-IsManaged {s} (move_assigned i j h k a b) ok = move_assign_handle-IsManaged s ok i j h k a b
Step-IsManaged {s} (destroyed i h a) ok = destroy_handle-IsManaged s ok i h a
Step-IsManaged {s} (bound i o e) ok = bind_handle-IsManaged s ok i o e
Step-IsManaged {s} (referred o running alive) ok = refer-IsManaged s ok o running alive
Step-IsManaged {s} (dropped i o e running a) ok =
    drop-IsManaged s ok i (get-inside i o s.memory.pointers e) a
      (λ b f n. ground (arith, ap (points b) e, running, n, ok.owned.held b f n))
Step-IsManaged {s} (ended o running f) ok = destroy_frame-IsManaged s ok o running f

-- In every state that calls of coroutine functions, copies, moves and destructions of handles,
-- copy assignments over handles whose coroutine is started or has another one, bindings, further
-- pointers to started coroutines and the ends of started bodies can reach, in any order: every
-- count is the number of pointers, and none leads to a deleted object; a coroutine that is not
-- started has its frame, whose promise refers to it, and another pointer beside that one, or
-- nothing refers to it at all; no frame is destroyed twice.
pub Reach-IsManaged : {s : Heap} → Reach s → IsManaged s
Reach-IsManaged here = record {
  counted = record { counted = λ o. refl; no_dangling = λ o h. refl };
  owned = record {
    promised = λ o f. ground (arith, f);
    held = λ o f n. ground (arith, f);
    released = λ o f n. refl;
  };
  uncalled = λ o h. (refl, refl);
  safe = refl;
}
Reach-IsManaged (later r t) = Step-IsManaged t (Reach-IsManaged r)

two_pointers :
    (i k o : ℕ) (ps : List (Option ℕ))
    → get i ps ≡ some o
    → get k ps ≡ some o
    → i ≢ k
    → 2 ≤ holders o ps
two_pointers i k o ps e e' apart =
    let still : get i (set k none ps) ≡ some o =
      ground (arith, get-set k i none ps (get-inside k o ps e'), e, apart) in
    ground (
      arith,
      holders-set o k none ps (get-inside k o ps e'),
      ap (points o) e',
      held_by i o (set k none ps) still,
    )

assign_handle-pointers :
    (s : Heap) (i j : ℕ)
    → (i == j) ≡ false
    → (assign_handle i j s).memory.pointers ≡ set i (get j s.memory.pointers) s.memory.pointers
unfolding assign_handle
assign_handle-pointers s i j h = rw (assign_handle, h) (copy_assign-pointers i j s.memory)

-- In such a state, if the handle at `i` is the last one of a coroutine that is not started, then
-- the copy assignment of a handle of something else to it leaves the coroutine's frame, and no
-- pointer to the coroutine but the one in that frame's promise.
pub assign_handle-leaks :
    (s : Heap) (i j o : ℕ)
    → IsManaged s
    → NotPromise s i
    → get i s.memory.pointers ≡ some o
    → get j s.memory.pointers ≢ some o
    → s.started o ≡ false
    → s.memory.references o ≡ 2
    → ((assign_handle i j s).has_frame o ≡ true)
      × ((k : ℕ) → get k (assign_handle i j s).memory.pointers ≡ some o → k ≡ s.promise o)
unfolding assign_handle
assign_handle-leaks s i j o ok apart e other n two =
    let f : s.has_frame o ≡ true = known s ok i o e n in
    let differ : (i == j) ≡ false = ground (arith, e, other) in
    let after : List (Option ℕ) = set i (get j s.memory.pointers) s.memory.pointers in
    let inside = get-inside i o s.memory.pointers e in
    let one : holders o after ≡ 1 = ground (
      arith,
      holders-set o i (get j s.memory.pointers) s.memory.pointers inside,
      e,
      not_there (get j s.memory.pointers) other,
      two,
      ok.counted.counted o,
    ) in
    let promised : get (s.promise o) after ≡ some o = ground (
      arith,
      get-set i (s.promise o) (get j s.memory.pointers) s.memory.pointers inside,
      apart o f,
      ok.owned.promised o f,
    ) in
    (
      rw differ f,
      λ k h.
          let there : get k after ≡ some o =
            sym (ap (get k) (assign_handle-pointers s i j differ)) ∙ h in
          elim (Bool-cases (k == s.promise o)) [
            | inl same ↦ ground (arith, same)
            | inr apart' ↦ absurd (
                omega (
                  arith,
                  one,
                  two_pointers (s.promise o) k o after promised there
                      (λ q. ground (arith, q, apart')),
                ))
          ],
    )
  where
    not_there : (p : Option ℕ) → p ≢ some o → points o p ≡ 0
    not_there none h = refl
    not_there (some a) h = ground (arith, h)
