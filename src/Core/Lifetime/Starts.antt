-- ===== src/Core/Lifetime/Starts.antt =====
-- include/cxxdes/core/impl/coroutine.ipp and impl/environment.ipp: a call of a coroutine function,
-- and `bind_`.
use mathlib.Core.Path.{subst}
use libcxxdes.Base.{
  ap, sym, ◌∙◌, ℕ, suc, ◌+◌, ◌<◌, ◌≡◌, true, false, Bool-cases, inl, inr, Option, none, some, List,
  [], ◌∷◌, ◌++◌, if◌then◌else◌, ◌==◌, length, update, arith,
}
use libcxxdes.Misc.RefCount.{get, set, construct, ref, ref_ptr, copy_construct}
use libcxxdes.Misc.RefCount.Holders.{points, holders, holders-append, holders-set, get-set}
use libcxxdes.Misc.RefCount.Laws.{IsCounted, Step-IsCounted, from_raw, copy_constructed}
use libcxxdes.Core.Lifetime.Defs.{Heap, allocate, call, refer, bind_handle}
use libcxxdes.Core.Lifetime.Pointers.{
  get-inside, get-append, get-last, held_by, copy_assign-pointers, length-add,
}
use libcxxdes.Core.Lifetime.Owned.{IsOwned}
use libcxxdes.Core.Lifetime.Operations.{IsManaged, refer-IsManaged}

module _ (s : Heap) (ok : IsManaged s) where
  pub known :
      (i o : ℕ) → get i s.memory.pointers ≡ some o → s.started o ≡ false → s.has_frame o ≡ true
  known i o e n = ground (arith, held_by i o s.memory.pointers e, ok.owned.released o)

  abbrev as_started : ℕ → Heap
  as_started o = record s { started = update s.started o true }

  as_started-IsManaged :
      (i o : ℕ) → get i s.memory.pointers ≡ some o → s.started o ≡ false → IsManaged (as_started o)
  as_started-IsManaged i o e n = record {
    counted = ok.counted;
    owned = record {
      promised = ok.owned.promised;
      held = λ a f m. ground (arith, ok.owned.held a);
      released = λ a f m. ground (arith, ok.owned.released a);
    };
    uncalled = λ a h. ((ok.uncalled a h).0, ground (arith, ok.uncalled a h, known i o e n));
    safe = ok.safe;
  }

  pub bind_handle-IsManaged :
      (i o : ℕ) → get i s.memory.pointers ≡ some o → IsManaged (bind_handle i s)
  unfolding bind_handle refer construct ref_ptr
  bind_handle-IsManaged i o e = elim (Bool-cases (s.started o)) [
    | inl t ↦ rw (bind_handle, e, t) ok
    | inr n ↦
        let running : update s.started o true o ≡ true = ground arith in
        let alive = ok.counted.no_dangling o (held_by i o s.memory.pointers e) in
        let first = refer-IsManaged (as_started o) (as_started-IsManaged i o e n) o running alive in
        rw (bind_handle, e, n) (refer-IsManaged (refer o (as_started o)) first o running alive)
  ]

  unborn : holders s.created s.memory.pointers ≡ 0
  unborn =
      let (no_frame, idle) = ok.uncalled s.created (omega arith) in
      ok.owned.released s.created no_frame idle

  allocate-IsCounted : IsCounted (allocate s.created s.memory)
  unfolding allocate
  allocate-IsCounted = record {
    counted = λ o. ground (arith, ok.counted.counted o, unborn);
    no_dangling = λ o h. ground (arith, ok.counted.no_dangling o h);
  }

  -- The pointers of the promise and of the handle are the last ones.
  abbrev with_call : List (Option ℕ)
  with_call =
      set (suc (length s.memory.pointers)) (some s.created)
        ((s.memory.pointers ++ some s.created ∷ []) ++ none ∷ [])

  abbrev grown : List (Option ℕ)
  grown = (s.memory.pointers ++ some s.created ∷ []) ++ none ∷ []

  end_of_grown : length (s.memory.pointers ++ some s.created ∷ []) ≡ suc (length s.memory.pointers)
  end_of_grown = length-add (some s.created) s.memory.pointers

  grown-last : get (suc (length s.memory.pointers)) grown ≡ none
  grown-last =
      ap (λ n. get n grown) (sym end_of_grown)
      ∙ get-last none (s.memory.pointers ++ some s.created ∷ [])

  grown-inside : suc (length s.memory.pointers) < length grown
  grown-inside =
      omega (arith, length-add none (s.memory.pointers ++ some s.created ∷ []), end_of_grown)

  promise_in_grown : get (length s.memory.pointers) grown ≡ some s.created
  promise_in_grown =
      get-append (length s.memory.pointers) s.created (s.memory.pointers ++ some s.created ∷ [])
        (none ∷ []) (get-last (some s.created) s.memory.pointers)

  others_in_grown : (i o : ℕ) → get i s.memory.pointers ≡ some o → get i grown ≡ some o
  others_in_grown i o e =
      get-append i o (s.memory.pointers ++ some s.created ∷ []) (none ∷ [])
        (get-append i o s.memory.pointers (some s.created ∷ []) e)

  with_call-holders :
      (a : ℕ)
      → holders a with_call
        ≡ holders a s.memory.pointers + points a (some s.created) + points a (some s.created)
  with_call-holders a = omega (
    arith,
    holders-set a (suc (length s.memory.pointers)) (some s.created) grown grown-inside,
    ap (points a) grown-last,
    holders-append a (s.memory.pointers ++ some s.created ∷ []) none,
    holders-append a s.memory.pointers (some s.created),
  )

  call-pointers : (call s).memory.pointers ≡ with_call
  unfolding call copy_construct construct ref_ptr ref allocate
  call-pointers =
      copy_assign-pointers (length (s.memory.pointers ++ some s.created ∷ []))
        (length s.memory.pointers)
        (construct none (construct (some s.created) (allocate s.created s.memory)))
      ∙ ap (λ n. set n (get (length s.memory.pointers) grown) grown) end_of_grown
      ∙ ap (λ p. set (suc (length s.memory.pointers)) p grown) promise_in_grown

  call-IsOwned : IsOwned (call s) with_call
  unfolding call
  call-IsOwned = record {
    promised = λ a f. ground (
      arith,
      get-set (suc (length s.memory.pointers))
          (if s.created == a then length s.memory.pointers else s.promise a) (some s.created) grown
          grown-inside,
      promise_in_grown,
      others_in_grown (s.promise a) a,
      get-inside (s.promise a) a s.memory.pointers,
      ok.owned.promised a,
    );
    held = λ a f n. ground (arith, with_call-holders a, ok.owned.held a);
    released = λ a f n. ground (arith, with_call-holders a, ok.owned.released a);
  }

  called-IsCounted : IsCounted (call s).memory
  unfolding call construct ref_ptr ref allocate
  called-IsCounted =
      let alive : update s.memory.deleted s.created false s.created ≡ false = ground arith in
      Step-IsCounted (copy_constructed (length s.memory.pointers) (omega (arith, end_of_grown)))
        (Step-IsCounted (from_raw s.created alive) allocate-IsCounted)

  pub call-IsManaged : IsManaged (call s)
  unfolding call
  call-IsManaged = record {
    counted = called-IsCounted;
    owned = subst (IsOwned (call s)) (sym call-pointers) call-IsOwned;
    uncalled = λ a h. (ground (arith, ok.uncalled a), ground (arith, ok.uncalled a));
    safe = ok.safe;
  }
