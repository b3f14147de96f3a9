-- ===== src/Core/Environment/Agenda.antt =====
-- include/cxxdes/core/impl/environment.ipp against its specification: an agenda is a bag of
-- events, in which nothing of the queue's order or layout is left.
use mathlib.Core.Quot
use mathlib.Core.Quot.{Quot, Quot-set}
use native.Mathlib.Nat.{ℕ_set}
use libcxxdes.Base.{
  ℕ, ◌<◌, ◌≡◌, refl, sym, ◌∙◌, ap, inl, inr, ◌⊎◌, ◌≢◌, List, [], ◌∷◌, count, In, arith,
  Option-cases, ℕ_discrete,
}
use libcxxdes.Base.Int.{max_ℤ}
use libcxxdes.Core.Token.Order.{Before}
use libcxxdes.Core.Queue.{PriorityQueue}
use libcxxdes.Core.World.{World, schedule_token}
use libcxxdes.Core.Environment.Defs.{idle, next_event, process, advance, step}
use libcxxdes.Core.Environment.Order.{
  AllPlain, pop-contents, pop-Before, next_event-popped, queue-empty,
}
use libcxxdes.Core.Environment.Clock.{step-some, step-idle}

-- Two lists hold the same events, as often.
abbrev SameEvents : List ℕ → List ℕ → Type 0
SameEvents xs ys = (i : ℕ) → count i xs ≡ count i ys

abbrev pub Agenda : Type 0
Agenda = Quot SameEvents

abbrev pub no_events : Agenda
no_events = Quot.mk []

unfoldable pub insert : ℕ → Agenda → Agenda
insert t =
    Quot.lift Quot-set (λ xs. Quot.mk (t ∷ xs)) (λ xs ys h. Quot.sound (λ i. omega (arith, h i)))

unfoldable pub occurrences : ℕ → Agenda → ℕ
occurrences i = Quot.lift ℕ_set (count i) (λ xs ys h. h i)

-- What a queue means.
abbrev pub agenda : {S : Type 0} → World S → Agenda
agenda w = Quot.mk w.queue

-- The specification of a step: nothing can be done without an event; otherwise an event leaves the
-- agenda that none on it runs before, the clock moves to it unless it is past, and it is processed.
pub record Takes {S : Type 0} (w : World S) (t : ℕ) (v : World S) : Type 0 where
  pub leaves : agenda w ≡ insert t (agenda v)
  pub earliest : (i : ℕ) → 0 < occurrences i (agenda w) → ¬ Before (w.token i) (w.token t)
  pub moves : v.now ≡ max_ℤ (w.token t).time w.now
  pub same_tokens : v.token ≡ w.token

module _ {S : Type 0} (q : PriorityQueue) (resume : ℕ → World S → World S) where
  -- @
  pub schedule_token-inserts :
      (t : ℕ) (w : World S) → agenda (schedule_token t w) ≡ insert t (agenda w)
  unfolding schedule_token insert
  schedule_token-inserts t w = refl

  -- `step` refines the agenda, the bag of events of the queue, where the queue holds no exception
  -- token. Without an event it does nothing. Otherwise an event leaves the agenda before which no
  -- event on it is to run, the clock moves to its time unless that is past, the tokens stay, and
  -- `step` processes that event in that world.
  pub step-Takes :
      (w : World S)
      → AllPlain w
      → ((agenda w ≡ no_events) × (step q resume w ≡ idle w))
        ⊎ ((t : ℕ) × (v : World S) × Takes w t v × (step q resume w ≡ process q resume t v))
  unfolding advance insert occurrences
  step-Takes w plain = elim (Option-cases (next_event q w)) [
    | inl e ↦ inl (ap (λ xs. Quot.mk xs) (queue-empty q w e), step-idle q resume w e)
    | inr (n, e) ↦
        let (t, rest, popped) = next_event-popped q w n e in
        inr (
          t,
          advance q resume t rest w,
          record {
            leaves = Quot.sound (λ i. pop-contents q w t rest popped i);
            earliest = pop-Before q w t rest plain popped;
            moves = refl;
            same_tokens = refl;
          },
          step-some q resume w t rest popped,
        )
  ]

-- Of any two events of the queue, one is to run before the other.
abbrev pub NoTies : {S : Type 0} → World S → Type 0
NoTies w =
    (i j : ℕ)
    → In i w.queue
    → In j w.queue
    → i ≢ j
    → Before (w.token i) (w.token j) ⊎ Before (w.token j) (w.token i)

module _ {S : Type 0} (w : World S) where
  Takes-count :
      (t : ℕ) (v : World S) → Takes w t v → (i : ℕ) → count i w.queue ≡ count i (t ∷ v.queue)
  unfolding insert occurrences
  Takes-count t v s i = ap (occurrences i) s.leaves

  Takes-earliest :
      (t : ℕ) (v : World S)
      → Takes w t v
      → (i : ℕ) → In i w.queue
      → ¬ Before (w.token i) (w.token t)
  unfolding occurrences
  Takes-earliest t v s i m = s.earliest i m

  -- Where of any two events of the queue one is to run before the other, the agenda's
  -- specification of a step is deterministic: two worlds that it allows have taken the same event,
  -- and have the same agenda and the same clock.
  pub Takes-unique :
      (t t' : ℕ) (v v' : World S)
      → NoTies w
      → Takes w t v
      → Takes w t' v'
      → (t ≡ t') × (agenda v ≡ agenda v') × (v.now ≡ v'.now)
  Takes-unique t t' v v' apart s s' = elim (ℕ_discrete t t') [
    | yes e ↦ (
      e,
      Quot.sound (λ i.
          omega (arith, Takes-count t v s i, Takes-count t' v' s' i, ap (λ k. count i (k ∷ [])) e)),
      s.moves ∙ ap (λ k. max_ℤ (w.token k).time w.now) e ∙ sym s'.moves,
    )
    | no d ↦
        absurd
          (elim (apart t t' (ground (arith, Takes-count t v s t))
            (ground (arith, Takes-count t' v' s' t')) d) [
              | inl b ↦ Takes-earliest t' v' s' t (ground (arith, Takes-count t v s t)) b
              | inr b ↦ Takes-earliest t v s t' (ground (arith, Takes-count t' v' s' t')) b
            ])
  ]

  -- An event that is taken has been on the agenda.
  Takes-not-empty : (t : ℕ) (v : World S) → Takes w t v → ¬ (agenda w ≡ no_events)
  unfolding occurrences
  Takes-not-empty t v s e = ground (arith, Takes-count t v s t, ap (occurrences t) e)

  -- Both steps find no event, or process the same one, in worlds with one agenda, clock and tokens.
  abbrev pub Agree : PriorityQueue → PriorityQueue → (ℕ → World S → World S) → Type 0
  Agree q q' resume =
      ((step q resume w ≡ idle w) × (step q' resume w ≡ idle w))
      ⊎ ((t : ℕ) × (v v' : World S) × (step q resume w ≡ process q resume t v)
          × (step q' resume w ≡ process q' resume t v')
          × (agenda v ≡ agenda v')
          × (v.now ≡ v'.now)
          × (v.token ≡ v'.token))

  -- Where the queue holds no exception token, and of any two of its events one is to run before
  -- the other, `step` does not depend on the implementation of the priority queue: with any two,
  -- it finds no event, or it processes the same event in worlds with the same agenda, clock and
  -- tokens.
  pub step_unique :
      (q q' : PriorityQueue) (resume : ℕ → World S → World S)
      → AllPlain w
      → NoTies w
      → Agree q q' resume
  step_unique q q' resume plain apart =
      go (step-Takes q resume w plain) (step-Takes q' resume w plain)
    where
      Found : PriorityQueue → Type 0
      Found p =
          ((agenda w ≡ no_events) × (step p resume w ≡ idle w))
          ⊎ ((t : ℕ) × (v : World S) × Takes w t v × (step p resume w ≡ process p resume t v))

      go : Found q → Found q' → Agree q q' resume
      go (inl (none_left, e)) (inl (none_left', e')) = inl (e, e')
      go (inl (none_left, e)) (inr (t', v', s', e')) = absurd (Takes-not-empty t' v' s' none_left)
      go (inr (t, v, s, e)) (inl (none_left', e')) = absurd (Takes-not-empty t v s none_left')
      go (inr (t, v, s, e)) (inr (t', v', s', e')) =
          let (same, left, clock) = Takes-unique t t' v v' apart s s' in
          inr (
            t,
            v,
            v',
            e,
            e' ∙ ap (λ k. process q' resume k v') (sym same),
            left,
            clock,
            s.same_tokens ∙ sym s'.same_tokens,
          )
