-- ===== src/Misc/Time/Quantity.antt =====
-- include/cxxdes/misc/time.hpp: units, `time`, `time::count` and `unitless_time`. A count is an
-- integer of any size; overflow of the machine's integer, undefined in the source, is not
-- modelled. So is the division by a precision of 0.
use libcxxdes.Base.{ℕ, zero, suc, ◌-◌, if◌then◌else◌, ltb}
use libcxxdes.Base.Int.{ℤ, pos, ◌*ℤ◌, ◌/ℤ◌}

pub data TimeUnitType : Type 0 where
  seconds milliseconds microseconds nanoseconds picoseconds unit_count : TimeUnitType

-- `(int) u`
abbrev pub index : TimeUnitType → ℕ
index TimeUnitType.seconds = 0
index TimeUnitType.milliseconds = 1
index TimeUnitType.microseconds = 2
index TimeUnitType.nanoseconds = 3
index TimeUnitType.picoseconds = 4
index TimeUnitType.unit_count = 5

pub record Time : Type 0 where
  pub t : ℤ
  pub u : TimeUnitType

-- The table `conv`, by the distance of two units.
abbrev pub conv : ℕ → ℕ
conv zero = 1
conv (suc zero) = 1_000
conv (suc (suc zero)) = 1_000_000
conv (suc (suc (suc zero))) = 1_000_000_000
conv (suc (suc (suc (suc n)))) = 1_000_000_000_000

-- `time::count(precision)`: the ticks of `precision` in the quantity.
unfoldable pub count : Time → Time → ℤ
count x precision =
    if ltb (index x.u) (index precision.u)
    then pos (conv (index precision.u - index x.u)) *ℤ x.t /ℤ precision.t
    else x.t /ℤ precision.t /ℤ pos (conv (index x.u - index precision.u))

-- `unitless_time::count(precision, unit)`
unfoldable pub unitless_count : ℤ → Time → Time → ℤ
unitless_count t precision unit = t *ℤ count unit precision

abbrev pub one_second : Time
one_second = record { t = pos 1; u = TimeUnitType.seconds }
