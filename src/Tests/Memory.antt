-- ===== src/Tests/Memory.antt =====
-- include/cxxdes/misc/reference_counted.hpp at concrete inputs.
use libcxxdes.Base.{refl, arith, false, some, []}
use libcxxdes.Misc.RefCount.{Memory, construct, copy_construct}
use libcxxdes.Misc.RefCount.Laws.{IsCounted, Step, Reach, Reach-IsCounted}

abbrev no_pointers : Memory
no_pointers = record { references = λ o. 0; deleted = λ o. false; pointers = [] }

-- A pointer to the object 5, and a copy of it.
abbrev one_pointer : Memory
one_pointer = construct (some 5) no_pointers

abbrev two_pointers : Memory
two_pointers = copy_construct 0 one_pointer

one_pointer-Reach : Reach one_pointer
one_pointer-Reach = Reach.later Reach.here (Step.from_raw 5 refl)

Reach-IsCounted_example : IsCounted two_pointers
unfolding construct
Reach-IsCounted_example =
    Reach-IsCounted {m = two_pointers}
      (Reach.later one_pointer-Reach (Step.copy_constructed 0 (omega arith)))
