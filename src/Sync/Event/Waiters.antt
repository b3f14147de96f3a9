-- ===== src/Sync/Event/Waiters.antt =====
-- include/cxxdes/sync/event.hpp: which coroutines the tokens of an event resume.
use mathlib.Core.List.{map-append}
use libcxxdes.Base.{
  ℕ, ◌≡◌, refl, ◌<◌, ◌≤◌, ◌∙◌, ap, ◌+◌, sym, Option, some, List, [], ◌∷◌, ◌++◌, map, count,
  count-append, In, Distinct, arith,
}
use libcxxdes.Core.World.{World}
use libcxxdes.Sync.Event.Defs.{Event, wait_in, wake}

map-same :
    {A : Type 0} (f g : ℕ → A) (xs : List ℕ) → ((i : ℕ) → In i xs → f i ≡ g i) → map f xs ≡ map g xs
map-same f g [] same = refl
map-same f g (x ∷ xs) same =
    rw (same x (ground arith))
      (ap (λ ys. g x ∷ ys) (map-same f g xs (λ i m. same i (ground arith))))

module _ {S : Type 0} where
  -- The coroutines that wait are registered with the event, in the order of their waits: each by a
  -- token of its own, which has been allocated and resumes it.
  pub record IsRegistered (evt : Event) (waiters : List ℕ) (w : World S) : Type 0 where
    pub resumed : map (λ i. (w.token i).coro_data) evt.tokens ≡ map some waiters
    pub distinct : Distinct evt.tokens
    pub allocated : (i : ℕ) → In i evt.tokens → i < w.token_count

  -- Other code in the same program: it allocates tokens, and lets the tokens of the event resume
  -- whom they did.
  pub record Spares (evt : Event) (w v : World S) : Type 0 where
    pub allocates : w.token_count ≤ v.token_count
    pub same_waiter : (i : ℕ) → In i evt.tokens → (v.token i).coro_data ≡ (w.token i).coro_data

  pub Spares-IsRegistered :
      (evt : Event) (waiters : List ℕ) (w v : World S)
      → Spares evt w v
      → IsRegistered evt waiters w
      → IsRegistered evt waiters v
  Spares-IsRegistered evt waiters w v spared ok = record {
    resumed =
        map-same (λ i. (v.token i).coro_data) (λ i. (w.token i).coro_data) evt.tokens
          spared.same_waiter
        ∙ ok.resumed;
    distinct = ok.distinct;
    allocated = λ i m. omega (arith, ok.allocated i m, spared.allocates);
  }

  -- A wait in coroutine `c` registers `c` behind the others.
  pub wait_in-IsRegistered :
      (c : ℕ) (evt : Event) (waiters : List ℕ) (w : World S)
      → IsRegistered evt waiters w
      → IsRegistered (wait_in c evt w).0 (waiters ++ c ∷ []) (wait_in c evt w).1
  unfolding wait_in
  wait_in-IsRegistered c evt waiters w ok = record {
    resumed =
        map-append coro' evt.tokens (w.token_count ∷ [])
        ∙ ap (λ ys. ys ++ map coro' (w.token_count ∷ []))
            (map-same coro' coro evt.tokens old ∙ ok.resumed)
        ∙ ap (λ y. map some waiters ++ y ∷ []) new
        ∙ sym (map-append some waiters (c ∷ []));
    distinct = λ i. ground (arith, snoc i, ok.distinct i, ok.allocated i);
    allocated = λ i m. ground (arith, snoc i, ok.allocated i);
  }
    where
      coro : ℕ → Option ℕ
      coro i = (w.token i).coro_data

      coro' : ℕ → Option ℕ
      coro' i = ((wait_in c evt w).1.token i).coro_data

      old : (i : ℕ) → In i evt.tokens → coro' i ≡ coro i
      old i m = ground (arith, ok.allocated i m)

      new : coro' w.token_count ≡ some c
      new = ground arith

      snoc :
          (i : ℕ)
          → count i (evt.tokens ++ w.token_count ∷ [])
            ≡ count i evt.tokens + count i (w.token_count ∷ [])
      snoc i = count-append i evt.tokens (w.token_count ∷ [])

  -- With an event that has no tokens, nobody is registered.
  pub nobody : (w : World S) → IsRegistered (record { tokens = [] }) [] w
  nobody w = record {
    resumed = refl;
    distinct = λ i. omega arith;
    allocated = λ i m. absurd (omega (arith, m));
  }

  -- After a wake, nobody is registered.
  pub wake-IsRegistered :
      (evt : Event) (w : World S) → IsRegistered (wake evt w).0 [] (wake evt w).1
  unfolding wake
  wake-IsRegistered evt w = nobody (wake evt w).1
