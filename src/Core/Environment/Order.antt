-- ===== src/Core/Environment/Order.antt =====
-- include/cxxdes/core/impl/environment.ipp: which event `next_event` and `step` take.
use mathlib.Core.Bool.{false≢true}
use mathlib.Core.Path.{subst}
use libcxxdes.Base.{
  ℕ, ◌≡◌, refl, sym, ◌∙◌, Option-cases, inl, inr, none, some, List, [], ◌∷◌, count, In, arith,
  dec_lt,
}
use libcxxdes.Core.Token.{Token}
use libcxxdes.Core.Token.Order.{
  Before, IsPlain, IsStrictWeakOrder, token_comp-IsStrictWeakOrder, token_comp_iff,
}
use libcxxdes.Core.Queue.{PriorityQueue}
use libcxxdes.Core.World.{World, comp_of}
use libcxxdes.Core.Environment.Defs.{next_event}

-- No token in the queue carries an exception to `step` itself.
abbrev pub AllPlain : {S : Type 0} → World S → Type 0
AllPlain w = (i : ℕ) → In i w.queue → IsPlain (w.token i)

not-Before-self : (a : Token) → ¬ Before a a
not-Before-self a (inl h) = omega arith
not-Before-self a (inr h) = omega arith

module _ {S : Type 0} (q : PriorityQueue) (w : World S) where
  comp_of-IsStrictWeakOrder : IsStrictWeakOrder (λ i. IsPlain (w.token i)) (comp_of w)
  comp_of-IsStrictWeakOrder = record {
    irreflexive = λ a p. irreflexive _ p;
    asymmetric = λ a b p r e. asymmetric _ _ p r e;
    transitive = λ a b c p r s e f. transitive _ _ _ p r s e f;
    negatively_transitive = λ a b c p r s e f. negatively_transitive _ _ _ p r s e f;
  }
    where
      open token_comp-IsStrictWeakOrder use {
        irreflexive, asymmetric, transitive, negatively_transitive,
      }

  -- The popped token is in the queue, and what is left is the rest of the queue.
  pub pop-contents :
      (t : ℕ) (rest : List ℕ)
      → q.pop (comp_of w) w.queue ≡ some (t, rest)
      → (i : ℕ) → count i w.queue ≡ count i (t ∷ rest)
  pop-contents t rest e i = omega (arith, q.pop-count (comp_of w) w.queue t rest e i)

  -- No token in the queue runs before the popped one.
  pub pop-Before :
      (t : ℕ) (rest : List ℕ)
      → AllPlain w
      → q.pop (comp_of w) w.queue ≡ some (t, rest)
      → (i : ℕ) → In i w.queue
      → ¬ Before (w.token i) (w.token t)
  pop-Before t rest plain e i m before = elim (dec_lt 0 (count i rest)) [
    | yes left ↦ false≢true (
        sym (
          q.pop-first (λ j. IsPlain (w.token j)) (comp_of w) w.queue t rest
            comp_of-IsStrictWeakOrder plain e i left)
        ∙ (token_comp_iff (w.token t) (w.token i) (plain i m)).1 before)
    | no gone ↦
        let same : t ≡ i = ground (arith, pop-contents t rest e i) in
        not-Before-self (w.token t) (subst (λ j. Before (w.token j) (w.token t)) (sym same) before)
  ]

  -- A queue with an element has a first one.
  pub pop-some :
      (i : ℕ)
      → In i w.queue
      → (t : ℕ) × (rest : List ℕ) × (q.pop (comp_of w) w.queue ≡ some (t, rest))
  pop-some i m = go w.queue m
    where
      go :
          (xs : List ℕ)
          → In i xs
          → (t : ℕ) × (rest : List ℕ) × (q.pop (comp_of w) xs ≡ some (t, rest))
      go [] m = absurd (omega arith)
      go (x ∷ xs) m = q.pop-cons (comp_of w) x xs

  -- In a queue without exception tokens, the event that `next_event` names is in the queue, and no
  -- event of the queue has an earlier time, or the same time and a smaller priority number.
  pub next_event-first :
      (t : ℕ)
      → AllPlain w
      → next_event q w ≡ some t
      → In t w.queue × ((i : ℕ) → In i w.queue → ¬ Before (w.token i) (w.token t))
  unfolding next_event
  next_event-first t plain e = elim (Option-cases (q.pop (comp_of w) w.queue)) [
    | inl none_left ↦ absurd (ground (arith, none_left))
    | inr ((t', rest), popped) ↦
        let same : t' ≡ t = ground (arith, popped) in
        rw (← same)
          (ground (arith, pop-contents t' rest popped t'), pop-Before t' rest plain popped)
  ]

  -- There is a next event unless the queue is empty.
  pub next_event-some : (i : ℕ) → In i w.queue → (t : ℕ) × (next_event q w ≡ some t)
  unfolding next_event
  next_event-some i m = let (t, rest, e) = pop-some i m in (t, ground (arith, e))

  pub next_event-popped :
      (t : ℕ)
      → next_event q w ≡ some t
      → (t' : ℕ) × (rest : List ℕ) × (q.pop (comp_of w) w.queue ≡ some (t', rest))
  unfolding next_event
  next_event-popped t e = elim (Option-cases (q.pop (comp_of w) w.queue)) [
    | inl none_left ↦ absurd (ground (arith, none_left))
    | inr ((t', rest), popped) ↦ (t', rest, popped)
  ]

  pub queue-empty : next_event q w ≡ none → w.queue ≡ []
  queue-empty none_left = go w.queue (λ i m. let (t, e) = next_event-some i m in cc)
    where
      go : (xs : List ℕ) → ((i : ℕ) → In i xs → ⊥) → xs ≡ []
      go [] h = refl
      go (x ∷ xs) h = absurd (h x (ground arith))
