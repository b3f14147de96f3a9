-- ===== src/Core/Lifetime/Owned.antt =====
-- include/cxxdes/core/impl/coroutine.ipp: what holds of the pointers to coroutines between two
-- operations.
use libcxxdes.Base.{
  ap, ℕ, ◌+◌, ◌<◌, ◌≤◌, ◌≡◌, ◌≢◌, true, false, Option, none, some, List, [], ◌∷◌, ◌++◌, ◌==◌,
  length, update, arith,
}
use libcxxdes.Misc.RefCount.{get, set}
use libcxxdes.Misc.RefCount.Holders.{
  points, holders, holders-append, holders-set, get-set, length-set, holders-swap,
}
use libcxxdes.Core.Lifetime.Defs.{Heap}
use libcxxdes.Core.Lifetime.Pointers.{get-append}

-- The promise of a frame refers to its coroutine. A coroutine that is not started has a frame and
-- a handle, or is not referred to any more.
pub record IsOwned (s : Heap) (ps : List (Option ℕ)) : Type 0 where
  pub promised : (o : ℕ) → s.has_frame o ≡ true → get (s.promise o) ps ≡ some o
  pub held : (o : ℕ) → s.has_frame o ≡ true → s.started o ≡ false → 2 ≤ holders o ps
  pub released : (o : ℕ) → s.has_frame o ≡ false → s.started o ≡ false → holders o ps ≡ 0

-- The pointer at `i` is not that of the promise of a frame.
abbrev pub NotPromise : Heap → ℕ → Type 0
NotPromise s i = (o : ℕ) → s.has_frame o ≡ true → i ≢ s.promise o

module _ (s : Heap) (ps : List (Option ℕ)) (ok : IsOwned s ps) where
  pub set-IsOwned :
      (i : ℕ) (p : Option ℕ)
      → i < length ps
      → NotPromise s i
      → ((o : ℕ)
          → s.has_frame o ≡ true
          → s.started o ≡ false
          → 2 + points o (get i ps) ≤ holders o ps + points o p)
      → ((o : ℕ) → s.started o ≡ false → points o p ≤ holders o ps)
      → IsOwned s (set i p ps)
  set-IsOwned i p inside apart kept known = record {
    promised =
        λ o f. ground (arith, get-set i (s.promise o) p ps inside, apart o f, ok.promised o f);
    held = λ o f n. omega (arith, holders-set o i p ps inside, kept o f n);
    released = λ o f n. omega (arith, holders-set o i p ps inside, ok.released o f n, known o n);
  }

  pub append-IsOwned :
      (p : Option ℕ)
      → ((o : ℕ) → s.started o ≡ false → points o p ≤ holders o ps)
      → IsOwned s (ps ++ p ∷ [])
  append-IsOwned p known = record {
    promised = λ o f. get-append (s.promise o) o ps (p ∷ []) (ok.promised o f);
    held = λ o f n. omega (arith, holders-append o ps p, ok.held o f n);
    released = λ o f n. omega (arith, holders-append o ps p, ok.released o f n, known o n);
  }

  pub swap-IsOwned :
      (i j : ℕ)
      → i < length ps
      → j < length ps
      → NotPromise s i
      → NotPromise s j
      → IsOwned s (set j (get i ps) (set i (get j ps) ps))
  swap-IsOwned i j hi hj apart apart' = record {
    promised = λ o f. ground (
      arith,
      get-set j (s.promise o) (get i ps) (set i (get j ps) ps)
          (omega (arith, length-set i (get j ps) ps)),
      get-set i (s.promise o) (get j ps) ps hi,
      apart o f,
      apart' o f,
      ok.promised o f,
    );
    held = λ o f n. omega (arith, holders-swap o i j ps hi hj, ok.held o f n);
    released = λ o f n. omega (arith, holders-swap o i j ps hi hj, ok.released o f n);
  }

-- The frame of `o` is gone.
abbrev pub without_frame : ℕ → Heap → Heap
without_frame o s = record s { has_frame = update s.has_frame o false }

module _ (s : Heap) (ps : List (Option ℕ)) (ok : IsOwned s ps) (o : ℕ)
    (f : s.has_frame o ≡ true) where
  apart_from :
      (a : ℕ) → s.has_frame a ≡ true → (o == a) ≡ false → (s.promise o == s.promise a) ≡ false
  apart_from a g h = ground (arith, ok.promised o f, ok.promised a g)

  -- The end of a started coroutine.
  pub end-IsOwned :
      s.started o ≡ true
      → s.promise o < length ps
      → IsOwned (without_frame o s) (set (s.promise o) none ps)
  end-IsOwned running inside = record {
    promised = λ a g.
        ground
          (arith, get-set (s.promise o) (s.promise a) none ps inside, apart_from a, ok.promised a);
    held = λ a g n.
        ground (arith, holders-set a (s.promise o) none ps inside, ok.promised o f, ok.held a);
    released = λ a g n.
        ground (arith, holders-set a (s.promise o) none ps inside, ok.promised o f, ok.released a);
  }

  -- The end of one that is not started, with its last handle, at `i`.
  pub last-IsOwned :
      (i : ℕ)
      → s.promise o < length ps
      → i < length ps
      → NotPromise s i
      → get i ps ≡ some o
      → holders o ps ≡ 2
      → IsOwned (without_frame o s) (set i none (set (s.promise o) none ps))
  last-IsOwned i inside here apart e two = record {
    promised = λ a g. ground (
      arith,
      get-set i (s.promise a) none without (omega (arith, length-set (s.promise o) none ps)),
      get-set (s.promise o) (s.promise a) none ps inside,
      apart_from a,
      apart a,
      ok.promised a,
    );
    held = λ a g n. ground (arith, counts a, ok.held a);
    released = λ a g n. ground (arith, counts a, ok.released a, two);
  }
    where
      without : List (Option ℕ)
      without = set (s.promise o) none ps

      still : get i without ≡ some o
      still = ground (arith, get-set (s.promise o) i none ps inside, apart o f, e)

      counts :
          (a : ℕ)
          → holders a (set i none without) + points a (some o) + points a (some o) ≡ holders a ps
      counts a = omega (
        arith,
        holders-set a i none without (omega (arith, length-set (s.promise o) none ps)),
        holders-set a (s.promise o) none ps inside,
        ap (points a) still,
        ap (points a) (ok.promised o f),
      )
