-- ===== src/Tests/Lifetime.antt =====
-- Handles of coroutines at concrete inputs.
use libcxxdes.Base.{ℕ, ◌≡◌, refl, true, some, arith}
use libcxxdes.Misc.RefCount.{get}
use libcxxdes.Core.Lifetime.{Heap, call, destroy_handle, assign_handle}
use libcxxdes.Core.Lifetime.Owned.{NotPromise}
use libcxxdes.Core.Lifetime.Operations.{IsManaged}
use libcxxdes.Core.Lifetime.Laws.{
  called, destroyed, Reach, here, later, no_coroutines, Reach-IsManaged, assign_handle-leaks,
}

-- One coroutine is called, and its handle destroyed: its state is deleted.
abbrev one_call : Heap
one_call = call no_coroutines

one_call-NotPromise : NotPromise one_call 1
unfolding call
one_call-NotPromise o f = ground arith

abbrev forgotten : Heap
forgotten = destroy_handle 1 one_call

forgotten-deleted : forgotten.memory.deleted 0 ≡ true
unfolding destroy_handle call
forgotten-deleted = refl

forgotten-Reach : Reach forgotten
unfolding call
forgotten-Reach = later (later here called) (destroyed 1 (omega arith) one_call-NotPromise)

Reach-IsManaged_example : IsManaged forgotten
Reach-IsManaged_example = Reach-IsManaged forgotten-Reach

-- Two coroutines are called, with handles at 1 and 3.
abbrev two_calls : Heap
two_calls = call one_call

two_calls-NotPromise : NotPromise two_calls 1
unfolding call
two_calls-NotPromise o f = ground arith

assign_handle-leaks_example :
    ((assign_handle 1 3 two_calls).has_frame 0 ≡ true)
    × ((k : ℕ)
        → get k (assign_handle 1 3 two_calls).memory.pointers ≡ some 0
        → k ≡ two_calls.promise 0)
unfolding call get
assign_handle-leaks_example =
    assign_handle-leaks two_calls 1 3 0 (Reach-IsManaged (later (later here called) called))
      two_calls-NotPromise refl (λ h. ground (arith, h)) refl refl
