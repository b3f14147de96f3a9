-- ===== src/Sync/Resource/Laws.antt =====
-- include/cxxdes/sync/resource.hpp: the units of a resource under any interleaving of its users.
use libcxxdes.Base.{
  ℕ, suc, ◌+◌, ◌≡◌, ◌<◌, Option, none, some, List, [], ◌∷◌, ◌++◌, arith, length, length-append,
  if◌then◌else◌, ◌==◌, ltb, total, total-append, total-middle, Bool-cases, inl, inr,
}
use libcxxdes.Core.World.{World, Outcome, done, threw}
use libcxxdes.Sync.Progress.{Progress, waiting, finished}
use libcxxdes.Sync.Event.Waiters.{
  IsRegistered, Spares, Spares-IsRegistered, wait_in-IsRegistered, wake-IsRegistered, nobody,
}
use libcxxdes.Sync.Resource.Defs.{Resource, new_resource, Handle, valid, acquire, release}

-- Whether a handle is valid, and whether it is valid for another resource than the one at `self`.
abbrev pub owning : Handle → ℕ
owning h = if valid h then 1 else 0

abbrev pub stray : ℕ → Handle → ℕ
stray self h = elim h.x [ none ↦ 0 | some a ↦ if a == self then 0 else 1 ]

-- A resource in its world, every handle that `acquire` has returned, as it is now, the rounds of
-- `acquire` and of `release` that have ended in a wait which no wake has ended yet, and their
-- coroutines, in the order of the waits.
pub record System (S : Type 0) : Type 0 where
  pub resource : Resource
  pub world : World S
  pub handles : List Handle
  pub acquires_waiting : ℕ
  pub releases_waiting : ℕ
  pub waiters : List ℕ

abbrev pub handed : Option Handle → List Handle
handed none = []
handed (some h) = h ∷ []

module _ {S : Type 0} where
  unfoldable pub after_acquire :
      ℕ → System S → Progress × Option Handle × Resource × World S → System S
  after_acquire c s (finished, h, r, v) = record {
    resource = r;
    world = v;
    handles = s.handles ++ handed h;
    acquires_waiting = 0;
    releases_waiting = 0;
    waiters = [];
  }
  after_acquire c s (waiting, h, r, v) = record s {
    resource = r;
    world = v;
    handles = s.handles ++ handed h;
    acquires_waiting = suc s.acquires_waiting;
    waiters = s.waiters ++ c ∷ [];
  }

  -- The release, in coroutine `c`, of the handle between `before` and `after`.
  unfoldable pub after_release :
      ℕ
      → List Handle
      → List Handle
      → System S
      → Outcome (Progress × Handle × Resource × World S)
      → System S
  after_release c before after s (done (finished, h, r, v)) = record {
    resource = r;
    world = v;
    handles = before ++ h ∷ after;
    acquires_waiting = 0;
    releases_waiting = 0;
    waiters = [];
  }
  after_release c before after s (done (waiting, h, r, v)) = record s {
    resource = r;
    world = v;
    handles = before ++ h ∷ after;
    releases_waiting = suc s.releases_waiting;
    waiters = s.waiters ++ c ∷ [];
  }
  after_release c before after s (threw e (p, h, r, v)) = record s {
    resource = r;
    world = v;
    handles = before ++ h ∷ after;
  }

  abbrev pub initial : ℕ → World S → System S
  initial count w = record {
    resource = new_resource count;
    world = w;
    handles = [];
    acquires_waiting = 0;
    releases_waiting = 0;
    waiters = [];
  }

  -- The free units and the valid handles add up to the units of the resource, and no handle is
  -- valid for another resource; no release ever waits; an `acquire` waits only while every unit is
  -- taken.
  pub record IsConserved (self count : ℕ) (s : System S) : Type 0 where
    pub same_max : s.resource.sem.max ≡ count
    pub conserved : s.resource.sem.value + total owning s.handles ≡ count
    pub no_stray : total (stray self) s.handles ≡ 0
    pub release_never_waits : s.releases_waiting ≡ 0
    pub no_lost_acquire : 0 < s.acquires_waiting → total owning s.handles ≡ count
    pub counted : length s.waiters ≡ s.acquires_waiting

  abbrev pub Registered : System S → Type 0
  Registered s = IsRegistered s.resource.sem.event s.waiters s.world

module _ {S : Type 0} (self : ℕ) where
  -- A round of `acquire`, the release of any of the handles, or anything else that happens in the
  -- world and leaves the tokens of the event to whom they resume.
  pub data Step (s : System S) : System S → Type 0 where
    acquire_round : (c : ℕ) → Step s (after_acquire c s (acquire self c s.resource s.world))
    release_handle :
        (c : ℕ) (before : List Handle) (h : Handle) (after : List Handle)
        → s.handles ≡ before ++ h ∷ after
        → Step s (after_release c before after s (release c h s.resource s.world))
    elsewhere :
        (v : World S) → Spares s.resource.sem.event s.world v → Step s (record s { world = v })

  pub data Reach (s : System S) : System S → Type 0 where
    here : Reach s s
    later : {t u : System S} → Reach s t → Step t u → Reach s u

  acquire-IsConserved :
      (count c : ℕ) (s : System S)
      → IsConserved self count s
      → IsConserved self count (after_acquire c s (acquire self c s.resource s.world))
  unfolding acquire after_acquire valid
  acquire-IsConserved count c s ok = ground (
    arith,
    length-append s.waiters (c ∷ []),
    total-append owning s.handles (record { x = some self } ∷ []),
    total-append (stray self) s.handles (record { x = some self } ∷ []),
    total-append owning s.handles [],
    total-append (stray self) s.handles [],
  )

  acquire-Registered :
      (c : ℕ) (s : System S)
      → Registered s
      → Registered (after_acquire c s (acquire self c s.resource s.world))
  unfolding acquire after_acquire
  acquire-Registered c s known = elim (Bool-cases (ltb 0 s.resource.sem.value)) [
    | inl e ↦ rw e (wake-IsRegistered s.resource.sem.event s.world)
    | inr e ↦ rw e (wait_in-IsRegistered c s.resource.sem.event s.waiters s.world known)
  ]

  release-IsConserved :
      (count c : ℕ) (before : List Handle) (h : Handle) (after : List Handle) (s : System S)
      → s.handles ≡ before ++ h ∷ after
      → IsConserved self count s
      → IsConserved self count (after_release c before after s (release c h s.resource s.world))
  unfolding release after_release valid
  release-IsConserved count c before h after s held ok = ground (
    arith,
    ok.conserved,
    held,
    length-append s.waiters (c ∷ []),
    total-middle owning before h after,
    total-middle (stray self) before h after,
    total-middle owning before (record { x = none }) after,
    total-middle (stray self) before (record { x = none }) after,
  )

  release-Registered :
      (c : ℕ) (before : List Handle) (h : Handle) (after : List Handle) (s : System S)
      → Registered s
      → Registered (after_release c before after s (release c h s.resource s.world))
  unfolding release after_release
  release-Registered c before h after s known = elim (Bool-cases (valid h)) [
    | inr e ↦ rw e known
    | inl e ↦ elim (Bool-cases (ltb s.resource.sem.value s.resource.sem.max)) [
      | inl f ↦ rw (e, f) (wake-IsRegistered s.resource.sem.event s.world)
      | inr f ↦ rw (e, f) (wait_in-IsRegistered c s.resource.sem.event s.waiters s.world known)
    ]
  ]

  Step-IsConserved :
      (count : ℕ) {s t : System S}
      → Step s t
      → IsConserved self count s × Registered s
      → IsConserved self count t × Registered t
  Step-IsConserved count {s} (acquire_round c) (ok, known) =
      (acquire-IsConserved count c s ok, acquire-Registered c s known)
  Step-IsConserved count {s} (release_handle c before h after held) (ok, known) = (
    release-IsConserved count c before h after s held ok,
    release-Registered c before h after s known,
  )
  Step-IsConserved count {s} (elsewhere v spared) (ok, known) = (
    record {
      same_max = ok.same_max;
      conserved = ok.conserved;
      no_stray = ok.no_stray;
      release_never_waits = ok.release_never_waits;
      no_lost_acquire = ok.no_lost_acquire;
      counted = ok.counted;
    },
    Spares-IsRegistered s.resource.sem.event s.waiters s.world v spared known,
  )

  -- In every state that rounds of `acquire` and releases of the handles it returned can reach from
  -- a new resource, in any order and among other steps that leave the waiting tokens to their
  -- coroutines: of the handles that `acquire` returned, as they are now, the valid ones and the
  -- free units add up to the units of the resource, and none is valid for another resource; no
  -- release waits, and an `acquire` waits only while every unit is taken; and the event holds, in
  -- the order of the waits, one token for each round that waits, different from the others and
  -- allocated, which resumes the coroutine of that round.
  pub Reach-IsConserved :
      (count : ℕ) (w : World S) {s : System S}
      → Reach (initial count w) s
      → IsConserved self count s × IsRegistered s.resource.sem.event s.waiters s.world
  unfolding new_resource
  Reach-IsConserved count w here = (ground arith, nobody w)
  Reach-IsConserved count w (later r st) = Step-IsConserved count st (Reach-IsConserved count w r)
