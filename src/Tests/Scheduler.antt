-- ===== src/Tests/Scheduler.antt =====
-- include/cxxdes/core/impl/environment.ipp and impl/timeout.ipp at concrete inputs.
use libcxxdes.Base.{
  ℕ, ◌<◌, ◌≡◌, refl, false, ap, inl, inr, arith, none, some, Option-cases, [], ◌∷◌, length, In,
}
use libcxxdes.Base.Int.{pos, ◌≤ℤ◌}
use libcxxdes.Core.Token.{Token, has_priority, token_comp}
use libcxxdes.Core.Token.Order.{Before, IsStrictWeakOrder, token_comp-not-IsStrictWeakOrder}
use libcxxdes.Core.Queue.Selection.{selection, selection-length}
use libcxxdes.Core.World.{World, comp_of}
use libcxxdes.Core.Environment.{
  stepped, finished, next_event, due, process, advance, step, run, run_until,
}
use libcxxdes.Core.Environment.Order.{AllPlain, next_event-first}
use libcxxdes.Core.Environment.Clock.{IsCausal, after, step-now-exact}
use libcxxdes.Core.Environment.Loops.{RunEnds, UntilEnds, run-Ends, run_until-Ends}
use libcxxdes.Tests.Worlds.{boom, event_at, world_with}

abbrev pub two_events : World (Unit {0})
two_events = world_with (2 ∷ 3 ∷ [])

-- A program that does nothing when it is resumed.
abbrev pub nothing : ℕ → World (Unit {0}) → World (Unit {0})
nothing c w = w

pub two_events-AllPlain : AllPlain two_events
unfolding has_priority
two_events-AllPlain i m = refl

two_events-IsCausal : IsCausal two_events
two_events-IsCausal i m = ground arith

pub first_is_3 : next_event selection two_events ≡ some 3
unfolding next_event selection token_comp has_priority
first_is_3 = refl

next_event-first_example :
    In 3 two_events.queue × ((i : ℕ) → In i two_events.queue → ¬ Before (event_at i) (event_at 3))
next_event-first_example = next_event-first selection two_events 3 two_events-AllPlain first_is_3

step-now-exact_example :
    ((after (step selection nothing two_events)).now ≡ pos 5)
    × ((i : ℕ) → In i two_events.queue → pos 5 ≤ℤ (event_at i).time)
step-now-exact_example =
    step-now-exact selection nothing (λ c w. refl) two_events 3 two_events-AllPlain
      two_events-IsCausal first_is_3

-- With the program that does nothing, and tokens without handlers and exceptions, each step takes
-- one event.
abbrev OnlyPlain : World (Unit {0}) → Type 0
OnlyPlain w = (i : ℕ) → ((w.token i).handler ≡ none) × (has_priority (w.token i) ≡ false)

process-shrinks :
    (t : ℕ) (w v : World (Unit {0}))
    → OnlyPlain w
    → process selection nothing t w ≡ stepped v
    → OnlyPlain v × (v.queue ≡ w.queue)
unfolding process
process-shrinks t w v p e =
    (λ i. (ground (arith, p t, p i), ground (arith, p t, p i)), ground (arith, p t))

step-shrinks :
    (w v : World (Unit {0}))
    → OnlyPlain w
    → step selection nothing w ≡ stepped v
    → OnlyPlain v × (length v.queue < length w.queue)
unfolding step advance
step-shrinks w v p e = elim (Option-cases (selection.pop (comp_of w) w.queue)) [
  | inl none_left ↦ absurd (ground (arith, none_left))
  | inr ((t, rest), popped) ↦
      let taken : process selection nothing t (advance selection nothing t rest w) ≡ stepped v =
        ground (arith, popped) in
      let (q, same) = process-shrinks t (advance selection nothing t rest w) v p taken in
      (q, omega (arith, ap length same, selection-length (comp_of w) w.queue t rest popped))
]

two_events-OnlyPlain : OnlyPlain two_events
unfolding has_priority
two_events-OnlyPlain i = (refl, refl)

run-Ends_example : RunEnds selection nothing two_events (run selection nothing 3 two_events)
run-Ends_example =
    run-Ends selection nothing OnlyPlain (λ w. length w.queue) step-shrinks 3 two_events
      two_events-OnlyPlain (omega arith)

run_until-Ends_example :
    UntilEnds selection nothing
      (pos 5)
      two_events
      (run_until selection nothing 3 (pos 5) two_events)
run_until-Ends_example =
    run_until-Ends selection nothing OnlyPlain (λ w. length w.queue) step-shrinks
      (λ w p i m. (p i).1) 3 (pos 5) two_events two_events-OnlyPlain (omega arith)

-- `run_until(4)` takes no event, and sets the clock to 4.
run_until_4 :
    run_until selection nothing 1 (pos 4) two_events ≡ finished (record two_events { now = pos 4 })
unfolding run_until due next_event selection token_comp has_priority
run_until_4 = refl

abbrev exception_token : Token
exception_token = record {
  time = pos 3;
  priority = pos 0;
  coro_data = none;
  handler = none;
  eptr = some boom;
}

token_comp-not-IsStrictWeakOrder_example : ¬ IsStrictWeakOrder (λ t. Unit {0}) token_comp
unfolding has_priority
token_comp-not-IsStrictWeakOrder_example =
    token_comp-not-IsStrictWeakOrder (λ t. Unit {0}) exception_token tt refl
