-- ===== src/Examples/MixedRuns.antt =====
-- Runs of complicated.cpp and Async2.
use libcxxdes.Base.{ℕ, zero, suc, ◌+◌, ◌≡◌, refl, some, List, [], ◌∷◌}
use libcxxdes.Base.Int.{pos}
use libcxxdes.Examples.Base.{Line, line, line_of, line_signed}
use libcxxdes.Examples.Mixed.{mixed_printed, run_mixed, async2_main, complicated_main}

async2_run :
    mixed_printed (run_mixed async2_main 60)
    ≡ some (
        line "now" (pos 0)
        ∷ line "now" (pos 0)
        ∷ line "now" (pos 5)
        ∷ line "now" (pos 5)
        ∷ line "now" (pos 50)
        ∷ [])
unfolding run_mixed async2_main
async2_run = refl

-- What `p4(k)` prints from `t` on, and then.
abbrev countdown : ℕ → ℕ → List Line → List Line
countdown t zero ls = ls
countdown t (suc k) ls = line_of "p4.a" (pos (t + 5)) (suc k) ∷ countdown (t + 5) k ls

complicated_run :
    mixed_printed (run_mixed complicated_main 400)
    ≡ some (
        line "Example 1" (pos 0)
        ∷ line "p2.a" (pos 0)
        ∷ line "p2.b" (pos 5)
        ∷ line "p2.c" (pos 10)
        ∷ line "p2.d" (pos 20)
        ∷ line "Example 2" (pos 20)
        ∷ line "p3.a" (pos 40)
        ∷ line "Example 3" (pos 40)
        ∷ countdown 40 20 (
            line "Example 4" (pos 140)
            ∷ line "p2.a" (pos 140)
            ∷ line "p2.b" (pos 145)
            ∷ line "p2.c" (pos 150)
            ∷ line "p2.d" (pos 160)
            ∷ line "p3.a" (pos 180)
            ∷ countdown 180 20 (
                line "Example 5: dynamic" (pos 280)
                ∷ line "Example 5: dynamic versions" (pos 280)
                ∷ line_signed "p5.delta1" (pos 300) (pos 20)
                ∷ line_signed "p5.delta1" (pos 305) (pos 5)
                ∷ [])))
unfolding run_mixed complicated_main
complicated_run = refl
