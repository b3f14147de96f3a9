-- ===== src/Core/Coroutine/Completion.antt =====
-- include/cxxdes/core/impl/environment.ipp: `do_return`, and how a result or an exception of a
-- coroutine reaches its completion tokens.
use libcxxdes.Base.{
  ℕ, ◌+◌, ◌≡◌, refl, ◌∙◌, ap, true, false, none, some, List, [], ◌∷◌, count, In, Distinct, arith,
  dec_lt,
}
use libcxxdes.Base.Int.{ℤ}
use libcxxdes.Core.Token.{Token, Exception}
use libcxxdes.Core.World.{World, done, set_coroutine}
use libcxxdes.Core.Schedule.{
  delayed, schedule_all, schedule_all-SameObjects, schedule_all-queue, schedule_all-token,
  schedule_all-other,
}
use libcxxdes.Core.Coroutine.Data.{
  start, bind, contains, erase, unmanage, set_eptr, set_eptr_all, propagate_exception, do_return,
  unhandled_exception,
}

contains-erase : (c : ℕ) (xs : List ℕ) → contains c (erase c xs) ≡ false
unfolding contains erase
contains-erase c [] = refl
contains-erase c (x ∷ xs) = ground (arith, contains-erase c xs)

abbrev with_exception : Exception → Token → Token
with_exception e t = record t { eptr = some e }

module _ {S : Type 0} where
  -- What completion does, where `ts` are the coroutine's completion tokens: each joins the queue,
  -- its latency counted from now, and the coroutine is complete, has no more completion tokens and
  -- is no longer managed. The clock and the other tokens stay.
  pub record IsCompleted (c : ℕ) (ts : List ℕ) (w v : World S) : Type 0 where
    pub queued : (i : ℕ) → count i v.queue ≡ count i ts + count i w.queue
    pub resumes : (i : ℕ) → In i ts → v.token i ≡ delayed w.now (w.token i)
    pub other_tokens : (i : ℕ) → count i ts ≡ 0 → v.token i ≡ w.token i
    pub is_complete : (v.coroutine c).complete ≡ true
    pub no_tokens : (v.coroutine c).completion_tokens ≡ []
    pub kept_value : (v.coroutine c).return_value ≡ (w.coroutine c).return_value
    pub unmanaged : contains c v.coroutines ≡ false
    pub clock : v.now ≡ w.now

  finish : ℕ → World S → World S
  finish c w =
      let d = w.coroutine c in
      let v =
        set_coroutine c (record d { completion_tokens = [] })
          (schedule_all d.completion_tokens w) in
      unmanage c (set_coroutine c (record (v.coroutine c) { complete = true }) v)

  finish-IsCompleted :
      (c : ℕ) (w : World S)
      → Distinct (w.coroutine c).completion_tokens
      → IsCompleted c (w.coroutine c).completion_tokens w (finish c w)
  unfolding finish set_coroutine unmanage
  finish-IsCompleted c w once = record {
    queued = λ i. schedule_all-queue ts w i;
    resumes = λ i m. schedule_all-token ts w i (omega (arith, once i));
    other_tokens = λ i h. schedule_all-other ts w i h;
    is_complete = ground arith;
    no_tokens = ground arith;
    kept_value = ground arith;
    unmanaged = contains-erase c (schedule_all ts w).coroutines;
    clock = (schedule_all-SameObjects ts w).same_now;
  }
    where
      ts : List ℕ
      ts = (w.coroutine c).completion_tokens

  -- The completion of a shared coroutine with distinct completion tokens succeeds: each token
  -- joins the queue once, its latency counted from now, and the coroutine is complete, has no more
  -- completion tokens, keeps its value and is no longer managed. The clock and the other tokens
  -- stay.
  pub do_return-IsCompleted :
      (c : ℕ) (w : World S)
      → (w.coroutine c).unique ≡ false
      → Distinct (w.coroutine c).completion_tokens
      → (v : World S) × (do_return c w ≡ some v)
        × IsCompleted c (w.coroutine c).completion_tokens w v
  unfolding do_return finish
  do_return-IsCompleted c w shared once = (finish c w, ground arith, finish-IsCompleted c w once)

  started_unique :
      (c : ℕ) (p : ℤ) (w : World S)
      → (w.coroutine c).unique ≡ true
      → (w.coroutine c).completion_token ≡ none
      → (((start c p w).coroutine c).unique ≡ true)
        × (((start c p w).coroutine c).completion_token ≡ none)
  unfolding start
  started_unique c p w unique unawaited = (ground arith, ground arith)

  completes_null :
      (c : ℕ) (e : Exception) (v : World S)
      → (v.coroutine c).unique ≡ true
      → (v.coroutine c).completion_token ≡ none
      → (do_return c v ≡ none) × (unhandled_exception e c v ≡ none)
  unfolding do_return unhandled_exception
  completes_null c e v unique unawaited = ground arith

  -- A unique coroutine that is bound while it has no completion token, and then completes, by a
  -- return or by an exception, dereferences a null pointer.
  pub bind-unawaited :
      (c : ℕ) (p : ℤ) (e : Exception) (w : World S)
      → (w.coroutine c).env ≡ none
      → (w.coroutine c).unique ≡ true
      → (w.coroutine c).completion_token ≡ none
      → (v : World S) × (bind c p w ≡ done v)
        × (do_return c v ≡ none)
        × (unhandled_exception e c v ≡ none)
  unfolding bind
  bind-unawaited c p e w unbound unique unawaited =
      let (u, k) = started_unique c p w unique unawaited in
      let (r, x) = completes_null c e (start c p w) u k in
      (start c p w, ground (arith, unbound), r, x)

  set_eptr_all-other :
      (e : Exception) (ts : List ℕ) (w : World S) (i : ℕ)
      → count i ts ≡ 0
      → (set_eptr_all e ts w).token i ≡ w.token i
  unfolding set_eptr_all
  set_eptr_all-other e [] w i h = refl
  set_eptr_all-other e (t ∷ ts) w i h = ground (arith, set_eptr_all-other e ts (set_eptr e t w) i)

  set_eptr_all-token :
      (e : Exception) (ts : List ℕ) (w : World S) (i : ℕ)
      → In i ts
      → (set_eptr_all e ts w).token i ≡ with_exception e (w.token i)
  unfolding set_eptr_all
  set_eptr_all-token e [] w i h = absurd (omega arith)
  set_eptr_all-token e (t ∷ ts) w i h = elim (dec_lt 0 (count i ts)) [
    | yes later ↦ ground (arith, set_eptr_all-token e ts (set_eptr e t w) i)
    | no last ↦ ground (arith, set_eptr_all-other e ts (set_eptr e t w) i)
  ]

  -- The fields that the propagation of an exception leaves alone.
  record SameRest (w v : World S) : Type 0 where
    same_now : v.now ≡ w.now
    same_queue : v.queue ≡ w.queue
    same_coroutine : v.coroutine ≡ w.coroutine

  set_eptr_all-SameRest :
      (e : Exception) (ts : List ℕ) (w : World S) → SameRest w (set_eptr_all e ts w)
  unfolding set_eptr_all
  set_eptr_all-SameRest e [] w = record {
    same_now = refl;
    same_queue = refl;
    same_coroutine = refl;
  }
  set_eptr_all-SameRest e (t ∷ ts) w =
      let rest = set_eptr_all-SameRest e ts (set_eptr e t w) in
      record {
        same_now = rest.same_now;
        same_queue = rest.same_queue;
        same_coroutine = rest.same_coroutine;
      }

  propagated_shared :
      (e : Exception) (c : ℕ) (w : World S)
      → (w.coroutine c).unique ≡ false
      → propagate_exception e c w ≡ some (set_eptr_all e (w.coroutine c).completion_tokens w)
  unfolding propagate_exception
  propagated_shared e c w shared = ground arith

  -- An exception that leaves a shared coroutine with distinct completion tokens completes it: each
  -- of those tokens joins the queue once and carries the exception.
  pub unhandled_exception-IsCompleted :
      (e : Exception) (c : ℕ) (w : World S)
      → (w.coroutine c).unique ≡ false
      → Distinct (w.coroutine c).completion_tokens
      → (v : World S) × (unhandled_exception e c w ≡ some v)
        × ((v.coroutine c).complete ≡ true)
        × ((i : ℕ) → In i (w.coroutine c).completion_tokens → (v.token i).eptr ≡ some e)
        × ((i : ℕ) → count i v.queue ≡ count i (w.coroutine c).completion_tokens + count i w.queue)
  unfolding unhandled_exception
  unhandled_exception-IsCompleted e c w shared once =
      let (v, returned, completed) =
        do_return-IsCompleted c u (rw same_coroutine shared) (rw same_coroutine once) in
      (
        v,
        ground (arith, propagated, returned),
        completed.is_complete,
        λ i m.
            ap (λ t. t.eptr) (completed.resumes i (rw same_coroutine m))
            ∙ ap (λ t. t.eptr) (set_eptr_all-token e ts w i m),
        λ i. completed.queued i ∙ ground (arith, same_coroutine, same_queue),
      )
    where
      ts : List ℕ
      ts = (w.coroutine c).completion_tokens

      u : World S
      u = set_eptr_all e ts w

      open (set_eptr_all-SameRest e ts w) use {same_coroutine, same_queue}

      propagated : propagate_exception e c w ≡ some u
      propagated = propagated_shared e c w shared
