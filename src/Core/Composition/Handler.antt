-- ===== src/Core/Composition/Handler.antt =====
-- include/cxxdes/core/impl/any_of.ipp: the conditions and `custom_handler::invoke`.
use libcxxdes.Base.{ℕ, ◌+◌, ◌-◌, ◌%◌, ◌^◌, Bool, none, some, if◌then◌else◌, ltb, ◌==◌}
use libcxxdes.Base.Int.{◌+ℤ◌}
use libcxxdes.Core.World.{
  World, Condition, any_of, all_of, Outcome, done, threw, schedule_token, set_token, set_handler,
}

-- `Condition::operator()(total, remaining)`
unfoldable pub holds : Condition → ℕ → ℕ → Bool
holds any_of total remaining = ltb remaining total
holds all_of total remaining = remaining == 0

-- `--remaining` on a `std::size_t`
abbrev pub decrement : ℕ → ℕ
decrement n = (n + (2 ^ 64 - 1)) % 2 ^ 64

module _ {S : Type 0} where
  -- The output token `c` inherits the features of the child token `tkn`, and is scheduled.
  unfoldable pub fire : ℕ → ℕ → World S → World S
  unfolding schedule_token set_token
  fire c tkn w =
      let out = w.token c in
      let child = w.token tkn in
      schedule_token c (
        set_token c
          (record out {
            time = out.time +ℤ child.time;
            priority = child.priority;
            coro_data = child.coro_data;
          })
          w)

  -- `custom_handler::invoke`
  unfoldable pub invoke : ℕ → ℕ → World S → Outcome (World S)
  unfolding holds fire set_handler
  invoke h tkn w =
      let d = w.handler h in
      let d' = record d { remaining = decrement d.remaining } in
      let w' = set_handler h d' w in
      elim (w.token tkn).eptr [
        | some e ↦ threw e w'
        | none ↦ elim d.completion_tkn [
          | none ↦ done w'
          | some c ↦
              if holds d'.condition d'.total d'.remaining
              then done (set_handler h (record d' { completion_tkn = none }) (fire c tkn w'))
              else done w'
        ]
      ]
