-- ===== src/Tests/Time.antt =====
-- include/cxxdes/misc/time.hpp at concrete inputs; the first tests are those of
-- tests/time.test.cpp.
use libcxxdes.Base.{◌*◌, ◌≤◌, ◌≡◌, refl, ap, arith}
use libcxxdes.Base.Int.{pos, negsuc, ◌+ℤ◌, ◌-ℤ◌, ◌*ℤ◌, ◌/ℤ◌}
use libcxxdes.Misc.Time.{
  Time, TimeUnitType, add, subtract, negate, divide, lit_s, lit_ms, lit_ns, lit_x, one_second,
  index, count, unitless_count, node_count,
}
use libcxxdes.Misc.Time.Rational.{picoseconds_per, count-ratio}
use libcxxdes.Misc.Time.Narrowing.{narrow_assign, narrow_assign_shrinks}
use libcxxdes.Misc.Time.Evaluation.{tick_of, exact, node_count-exact}

abbrev one_ms : Time
one_ms = record { t = pos 1; u = TimeUnitType.milliseconds }

sum_counts_1001 :
    node_count (add (add (lit_s 1) (lit_ms 1)) (lit_ns 1)) one_ms one_second ≡ pos 1001
unfolding node_count ◌+ℤ◌ count ◌/ℤ◌ ◌*ℤ◌
sum_counts_1001 = refl

difference_counts : node_count (add (negate (lit_s 1)) (lit_ms 3)) one_ms one_second ≡ negsuc 996
unfolding node_count ◌+ℤ◌ ◌-ℤ◌ count ◌/ℤ◌ ◌*ℤ◌
difference_counts = refl

seven_halves : node_count (divide (lit_x 7) (pos 2)) one_ms one_ms ≡ pos 3
unfolding node_count ◌/ℤ◌ unitless_count ◌*ℤ◌ count
seven_halves = refl

count-ratio_example :
    count
      (record { t = negsuc 2_499; u = TimeUnitType.microseconds })
      (record { t = pos 2; u = TimeUnitType.milliseconds })
    ≡ pos (picoseconds_per TimeUnitType.microseconds)
      *ℤ negsuc 2_499
      /ℤ pos (2 * picoseconds_per TimeUnitType.milliseconds)
count-ratio_example =
    count-ratio (record { t = negsuc 2_499; u = TimeUnitType.microseconds }) 2
      TimeUnitType.milliseconds (λ e. absurd (omega (arith, ap index e)))
      (λ e. absurd (omega (arith, ap index e)))

node_count-exact_example :
    node_count (subtract (lit_s 1) (lit_ms 3)) (tick_of TimeUnitType.milliseconds) one_second
      *ℤ pos (picoseconds_per TimeUnitType.milliseconds)
    ≡ exact (subtract (lit_s 1) (lit_ms 3)) one_second
node_count-exact_example =
    node_count-exact (subtract (lit_s 1) (lit_ms 3)) TimeUnitType.milliseconds one_second
      (λ e. absurd (omega (arith, ap index e))) (omega arith, omega arith)

-- 5000 milliseconds in 8 bits are stored as 5 microseconds.
narrow_assign_shrinks_example :
    (narrow_assign 8 (record { t = pos 5_000; u = TimeUnitType.milliseconds }) ≡ (pos 5, 2))
    × (5 * picoseconds_per TimeUnitType.microseconds * 1_000_000
        ≤ 5_000 * picoseconds_per TimeUnitType.milliseconds)
narrow_assign_shrinks_example =
    narrow_assign_shrinks 8 5_000 TimeUnitType.milliseconds TimeUnitType.microseconds (omega arith)
      (omega arith) refl (λ e. absurd (omega (arith, ap index e)))
