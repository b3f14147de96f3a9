-- ===== src/Sync/Mutex/Laws.antt =====
-- include/cxxdes/sync/mutex.hpp: exclusion under any interleaving of its users.
use libcxxdes.Base.{
  ℕ, ◌≡◌, ◌<◌, true, Option, none, some, List, [], ◌∷◌, ◌++◌, arith, length, if◌then◌else◌, ◌==◌,
  total, total-append, total-middle, Bool-cases, inl, inr,
}
use libcxxdes.Core.Token.{invalid_mutex_handle}
use libcxxdes.Core.World.{World, Outcome, done, threw}
use libcxxdes.Sync.Progress.{Progress, waiting, finished}
use libcxxdes.Sync.Event.Waiters.{
  IsRegistered, Spares, Spares-IsRegistered, wait_in-IsRegistered, wake-IsRegistered, nobody,
}
use libcxxdes.Sync.Mutex.Defs.{Mutex, new_mutex, Handle, valid, acquire, release}

-- Whether a handle is valid, and whether it is valid for another mutex than the one at `self`.
abbrev pub owning : Handle → ℕ
owning h = if valid h then 1 else 0

abbrev pub stray : ℕ → Handle → ℕ
stray self h = elim h.x [ none ↦ 0 | some a ↦ if a == self then 0 else 1 ]

-- A mutex in its world, every handle that `acquire` has returned, as it is now, and the coroutines
-- whose rounds have ended in a wait which no wake has ended yet, in the order of the waits.
pub record System (S : Type 0) : Type 0 where
  pub mutex : Mutex
  pub world : World S
  pub handles : List Handle
  pub waiters : List ℕ

abbrev pub handed : Option Handle → List Handle
handed none = []
handed (some h) = h ∷ []

module _ {S : Type 0} where
  unfoldable pub after_acquire :
      ℕ → System S → Progress × Option Handle × Mutex × World S → System S
  after_acquire c s (finished, h, m, v) = record s {
    mutex = m;
    world = v;
    handles = s.handles ++ handed h;
  }
  after_acquire c s (waiting, h, m, v) = record s {
    mutex = m;
    world = v;
    handles = s.handles ++ handed h;
    waiters = s.waiters ++ c ∷ [];
  }

  -- The release of the handle between `before` and `after`.
  unfoldable pub after_release :
      List Handle → List Handle → System S → Outcome (Handle × Mutex × World S) → System S
  after_release before after s (done (h, m, v)) = record {
    mutex = m;
    world = v;
    handles = before ++ h ∷ after;
    waiters = [];
  }
  after_release before after s (threw e (h, m, v)) = record s {
    mutex = m;
    world = v;
    handles = before ++ h ∷ after;
  }

  abbrev pub initial : World S → System S
  initial w = record { mutex = new_mutex; world = w; handles = []; waiters = [] }

  -- One of the handles is valid while the mutex is owned, and none while it is free; no handle is
  -- valid for another mutex; and somebody waits only while the mutex is owned.
  pub record IsExclusive (self : ℕ) (s : System S) : Type 0 where
    pub one_owner : total owning s.handles ≡ (if s.mutex.owned then 1 else 0)
    pub no_stray : total (stray self) s.handles ≡ 0
    pub no_lost_waiter : 0 < length s.waiters → s.mutex.owned ≡ true

  abbrev pub Registered : System S → Type 0
  Registered s = IsRegistered s.mutex.event s.waiters s.world

  -- After a release of a mutex handle that succeeded, the same handle cannot be released again:
  -- that throws, whatever the mutex and the world, and changes nothing.
  pub release_twice :
      (h h' : Handle) (m n k : Mutex) (w v u : World S)
      → release h m w ≡ done (h', n, v)
      → release h' k u ≡ threw invalid_mutex_handle (h', k, u)
  unfolding release
  release_twice h h' m n k w v u e = ground arith

module _ {S : Type 0} (self : ℕ) where
  -- A round of `acquire`, the release of any of the handles, or anything else that happens in the
  -- world and leaves the tokens of the event to whom they resume.
  pub data Step (s : System S) : System S → Type 0 where
    acquire_round : (c : ℕ) → Step s (after_acquire c s (acquire self c s.mutex s.world))
    release_handle :
        (before : List Handle) (h : Handle) (after : List Handle)
        → s.handles ≡ before ++ h ∷ after
        → Step s (after_release before after s (release h s.mutex s.world))
    elsewhere : (v : World S) → Spares s.mutex.event s.world v → Step s (record s { world = v })

  pub data Reach (s : System S) : System S → Type 0 where
    here : Reach s s
    later : {t u : System S} → Reach s t → Step t u → Reach s u

  acquire-IsExclusive :
      (c : ℕ) (s : System S)
      → IsExclusive self s
      → IsExclusive self (after_acquire c s (acquire self c s.mutex s.world))
  unfolding acquire after_acquire valid
  acquire-IsExclusive c s ok = ground (
    arith,
    total-append owning s.handles (record { x = some self } ∷ []),
    total-append (stray self) s.handles (record { x = some self } ∷ []),
    total-append owning s.handles [],
    total-append (stray self) s.handles [],
  )

  acquire-Registered :
      (c : ℕ) (s : System S)
      → Registered s
      → Registered (after_acquire c s (acquire self c s.mutex s.world))
  unfolding acquire after_acquire
  acquire-Registered c s known = elim (Bool-cases s.mutex.owned) [
    | inl e ↦ rw e (wait_in-IsRegistered c s.mutex.event s.waiters s.world known)
    | inr e ↦ rw e known
  ]

  release-IsExclusive :
      (before : List Handle) (h : Handle) (after : List Handle) (s : System S)
      → s.handles ≡ before ++ h ∷ after
      → IsExclusive self s
      → IsExclusive self (after_release before after s (release h s.mutex s.world))
  unfolding release after_release valid
  release-IsExclusive before h after s held ok = ground (
    arith,
    ok.one_owner,
    held,
    total-middle owning before h after,
    total-middle (stray self) before h after,
    total-middle owning before (record { x = none }) after,
    total-middle (stray self) before (record { x = none }) after,
  )

  release-Registered :
      (before : List Handle) (h : Handle) (after : List Handle) (s : System S)
      → Registered s
      → Registered (after_release before after s (release h s.mutex s.world))
  unfolding release after_release
  release-Registered before h after s known = elim (Bool-cases (valid h)) [
    | inl e ↦ rw e (wake-IsRegistered s.mutex.event s.world)
    | inr e ↦ rw e known
  ]

  Step-IsExclusive :
      {s t : System S}
      → Step s t
      → IsExclusive self s × Registered s
      → IsExclusive self t × Registered t
  Step-IsExclusive {s} (acquire_round c) (ok, known) =
      (acquire-IsExclusive c s ok, acquire-Registered c s known)
  Step-IsExclusive {s} (release_handle before h after held) (ok, known) =
      (release-IsExclusive before h after s held ok, release-Registered before h after s known)
  Step-IsExclusive {s} (elsewhere v spared) (ok, known) = (
    record { one_owner = ok.one_owner; no_stray = ok.no_stray; no_lost_waiter = ok.no_lost_waiter },
    Spares-IsRegistered s.mutex.event s.waiters s.world v spared known,
  )

  -- In every state that rounds of `acquire` and releases of the handles it returned can reach from
  -- a new mutex, in any order and among other steps that leave the waiting tokens to their
  -- coroutines: of the handles that `acquire` returned, as they are now, exactly one is valid
  -- while the mutex is owned and none while it is free, and none is valid for another mutex; a
  -- round waits only while the mutex is owned; and the event holds, in the order of the waits, one
  -- token for each round that waits, different from the others and allocated, which resumes the
  -- coroutine of that round.
  pub Reach-IsExclusive :
      (w : World S) {s : System S}
      → Reach (initial w) s
      → IsExclusive self s × IsRegistered s.mutex.event s.waiters s.world
  Reach-IsExclusive w here = (ground arith, nobody w)
  Reach-IsExclusive w (later r st) = Step-IsExclusive st (Reach-IsExclusive w r)
