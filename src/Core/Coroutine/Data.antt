-- ===== src/Core/Coroutine/Data.antt =====
-- include/cxxdes/core/impl/coroutine_data.ipp, with `bind_`, `manage_`, `unmanage_`,
-- `schedule_completion_` and `do_return` of impl/environment.ipp. An operation that dereferences a
-- null pointer has no result: `none`.
use libcxxdes.Base.{
  ℕ, Bool, true, false, Option, none, some, List, [], ◌∷◌, ◌++◌, if◌then◌else◌, ◌==◌, ◌||◌,
}
use libcxxdes.Base.Int.{ℤ, ◌+ℤ◌}
use libcxxdes.Core.Token.{Token, Exception, bound_elsewhere, resolve}
use libcxxdes.Core.World.{
  World, CoroutineData, Outcome, done, threw, new_token, schedule_token, set_token, set_coroutine,
}
use libcxxdes.Core.Schedule.{schedule_from_now, schedule_all}

-- `std::unordered_set::insert` and `erase`, on a list.
unfoldable pub contains : ℕ → List ℕ → Bool
contains c [] = false
contains c (x ∷ xs) = x == c || contains c xs

unfoldable pub erase : ℕ → List ℕ → List ℕ
erase c [] = []
erase c (x ∷ xs) = let rest = erase c xs in if x == c then rest else x ∷ rest

module _ {S : Type 0} where
  unfoldable pub manage : ℕ → World S → World S
  unfolding contains
  manage c w = record w {
    coroutines = if contains c w.coroutines then w.coroutines else c ∷ w.coroutines;
  }

  unfoldable pub unmanage : ℕ → World S → World S
  unfolding erase
  unmanage c w = record w { coroutines = erase c w.coroutines }

  -- The token that starts coroutine `c`.
  abbrev pub start_token : ℕ → CoroutineData → ℤ → World S → Token
  start_token c d priority w = record {
    time = w.now +ℤ d.latency;
    priority = priority;
    coro_data = some c;
    handler = none;
    eptr = none;
  }

  -- The part of `bind_` behind its guard.
  unfoldable pub start : ℕ → ℤ → World S → World S
  unfolding manage new_token schedule_token set_coroutine
  start c inherited w =
      let d = w.coroutine c in
      let p = resolve d.priority inherited in
      let bound = record d { env = some w.id; parent = w.current; priority = p } in
      manage c
        (schedule_token w.token_count (new_token (start_token c d p w) (set_coroutine c bound w)))

  unfoldable pub bind : ℕ → ℤ → World S → Outcome (World S)
  unfolding start
  bind c inherited w = elim (w.coroutine c).env [
    | some e ↦ if e == w.id then done w else threw bound_elsewhere w
    | none ↦ done (start c inherited w)
  ]

  -- `completion_token(token *)`: the shared variant collects, the unique one holds the last.
  unfoldable pub add_completion_token : ℕ → ℕ → World S → World S
  unfolding set_coroutine
  add_completion_token tkn c w =
      let d = w.coroutine c in
      set_coroutine c
        (if d.unique
          then record d { completion_token = some tkn }
          else record d { completion_tokens = d.completion_tokens ++ tkn ∷ [] })
        w

  unfoldable pub set_eptr : Exception → ℕ → World S → World S
  unfolding set_token
  set_eptr e tkn w = set_token tkn (record (w.token tkn) { eptr = some e }) w

  unfoldable pub set_eptr_all : Exception → List ℕ → World S → World S
  unfolding set_eptr
  set_eptr_all e [] w = w
  set_eptr_all e (t ∷ ts) w = set_eptr_all e ts (set_eptr e t w)

  -- `propagate_exception`
  unfoldable pub propagate_exception : Exception → ℕ → World S → Option (World S)
  unfolding set_eptr_all
  propagate_exception e c w =
      let d = w.coroutine c in
      if d.unique
      then elim d.completion_token [ none ↦ none | some t ↦ some (set_eptr e t w) ]
      else some (set_eptr_all e d.completion_tokens w)

  -- `schedule_completion_`
  unfoldable pub schedule_completion : ℕ → World S → Option (World S)
  unfolding schedule_all schedule_from_now set_coroutine
  schedule_completion c w =
      let d = w.coroutine c in
      if d.unique
      then elim d.completion_token [
        | none ↦ none
        | some t ↦
            some (set_coroutine c (record d { completion_token = none }) (schedule_from_now t w))
      ]
      else some (
          set_coroutine c (record d { completion_tokens = [] })
            (schedule_all d.completion_tokens w))

  -- `do_return`
  unfoldable pub do_return : ℕ → World S → Option (World S)
  unfolding schedule_completion unmanage
  do_return c w = elim (schedule_completion c w) [
    | none ↦ none
    | some v ↦ some (unmanage c (set_coroutine c (record (v.coroutine c) { complete = true }) v))
  ]

  -- The promise's `return_value` and `unhandled_exception`.
  unfoldable pub return_value : ℕ → ℕ → World S → Option (World S)
  return_value x c w =
      do_return c (set_coroutine c (record (w.coroutine c) { return_value = some x }) w)

  unfoldable pub unhandled_exception : Exception → ℕ → World S → Option (World S)
  unfolding propagate_exception do_return
  unhandled_exception e c w = elim (propagate_exception e c w) [
    | none ↦ none
    | some v ↦ do_return c v
  ]
