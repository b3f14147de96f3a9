-- ===== src/Examples/SharingRuns.antt =====
-- Runs of the examples with synchronization objects.
use libcxxdes.Base.{◌≡◌, refl, some, [], ◌∷◌}
use libcxxdes.Base.Int.{pos}
use libcxxdes.Core.Timeout.{instant}
use libcxxdes.Sync.Queue.{can_put}
use libcxxdes.Core.Token.{inherit}
use libcxxdes.Examples.Endless.{
  clock, clocks, run_bound_for, interrupt_main, composed_loops, looped_sequence, looped_bar,
}
use libcxxdes.Examples.Base.{line, line_of, bound, new_world}
use libcxxdes.Examples.Synced.{no_objects, run_synced, sync_printed}
use libcxxdes.Examples.Sharing.{
  mutex_main, semaphore_main, one_permit, queue_main, queue_of_one, resource_main, three_units,
  event_main,
}

mutex_run :
    sync_printed (run_synced mutex_main 90 no_objects)
    ≡ some (
        line_of "idx" (pos 0) 5
        ∷ line_of "idx" (pos 5) 5
        ∷ line_of "idx" (pos 5) 3
        ∷ line_of "idx" (pos 10) 3
        ∷ line_of "idx" (pos 10) 2
        ∷ line_of "idx" (pos 15) 2
        ∷ line_of "idx" (pos 15) 4
        ∷ line_of "idx" (pos 20) 4
        ∷ line_of "idx" (pos 20) 1
        ∷ line_of "idx" (pos 25) 1
        ∷ [])
unfolding run_synced mutex_main
mutex_run = refl

semaphore_run :
    sync_printed (run_synced semaphore_main 90 one_permit) ≡ some (line "p1" (pos 10) ∷ [])
unfolding run_synced semaphore_main one_permit
semaphore_run = refl

queue_run :
    sync_printed (run_synced queue_main 90 queue_of_one)
    ≡ some (line_of "p1: r" (pos 5) 1 ∷ line "p2" (pos 5) ∷ line_of "p1: r" (pos 12) 2 ∷ [])
unfolding run_synced queue_main queue_of_one can_put
queue_run = refl

resource_run :
    sync_printed (run_synced resource_main 90 three_units)
    ≡ some (
        line_of "try acquire" (pos 0) 2
        ∷ line_of "acquired" (pos 0) 2
        ∷ line_of "try acquire" (pos 0) 1
        ∷ line_of "acquired" (pos 0) 1
        ∷ line_of "try acquire" (pos 0) 0
        ∷ line_of "acquired" (pos 0) 0
        ∷ line_of "try acquire" (pos 0) 3
        ∷ line_of "release" (pos 2) 2
        ∷ line_of "done" (pos 2) 2
        ∷ line_of "acquired" (pos 2) 3
        ∷ line_of "release" (pos 4) 0
        ∷ line_of "done" (pos 4) 0
        ∷ line_of "release" (pos 10) 1
        ∷ line_of "done" (pos 10) 1
        ∷ line_of "release" (pos 12) 3
        ∷ line_of "done" (pos 12) 3
        ∷ [])
unfolding run_synced resource_main three_units
resource_run = refl

event_run :
    sync_printed (run_synced event_main 90 no_objects)
    ≡ some (
        line "p4.a" (pos 0)
        ∷ line "p2.a" (pos 0)
        ∷ line "p1.a" (pos 0)
        ∷ line "p2.b" (pos 5)
        ∷ line "p2.c" (pos 5)
        ∷ line "p1.b" (pos 7)
        ∷ line "p3.a" (pos 13)
        ∷ line "p4.b" (pos 20)
        ∷ line "p4.c" (pos 500)
        ∷ line "p4.d" (pos 602)
        ∷ [])
unfolding run_synced event_main instant
event_run = refl

-- `env.run_for(20)` of clocks.cpp, with the clocks of periods 2, 3 and 7.
clocks_run :
    run_bound_for 40 (pos 20) (
      bound
        (clock 7 "clock 3")
        inherit
        (bound (clock 3 "clock 2") inherit (bound (clock 2 "clock 1") inherit new_world)))
    ≡ some (
      pos 20,
      line "clock 3" (pos 0)
          ∷ line "clock 2" (pos 0)
          ∷ line "clock 1" (pos 0)
          ∷ line "clock 1" (pos 2)
          ∷ line "clock 2" (pos 3)
          ∷ line "clock 1" (pos 4)
          ∷ line "clock 1" (pos 6)
          ∷ line "clock 2" (pos 6)
          ∷ line "clock 3" (pos 7)
          ∷ line "clock 1" (pos 8)
          ∷ line "clock 2" (pos 9)
          ∷ line "clock 1" (pos 10)
          ∷ line "clock 1" (pos 12)
          ∷ line "clock 2" (pos 12)
          ∷ line "clock 3" (pos 14)
          ∷ line "clock 1" (pos 14)
          ∷ line "clock 2" (pos 15)
          ∷ line "clock 1" (pos 16)
          ∷ line "clock 1" (pos 18)
          ∷ line "clock 2" (pos 18)
          ∷ line "clock 1" (pos 20)
          ∷ [],
    )
unfolding run_bound_for bound clock
clocks_run = refl

-- `env.run_for(50)` of bug.cpp.
bug_run :
    run_bound_for 40 (pos 50) (bound (clocks 1) inherit (bound (clocks 0) inherit new_world))
    ≡ some (pos 50, [])
unfolding run_bound_for bound clocks
bug_run = refl

-- `test{0}.run_for(100)`, `test{1}.run_for(100)` and `test{2}.run_for(100)` of interrupt_test.cpp:
-- the simulation ends at 100.
composed_run :
    run_bound_for 60 (pos 100) (bound (interrupt_main composed_loops) inherit new_world)
    ≡ some (pos 100, [])
unfolding run_bound_for bound interrupt_main composed_loops
composed_run = refl

sequence_run :
    run_bound_for 60 (pos 100) (bound (interrupt_main looped_sequence) inherit new_world)
    ≡ some (pos 100, [])
unfolding run_bound_for bound interrupt_main looped_sequence
sequence_run = refl

bar_run :
    run_bound_for 60 (pos 100) (bound (interrupt_main looped_bar) inherit new_world)
    ≡ some (pos 100, [])
unfolding run_bound_for bound interrupt_main looped_bar
bar_run = refl
