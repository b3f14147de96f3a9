-- ===== src/Lib.antt =====
-- libcxxdes, a discrete-event simulation library on C++20 coroutines: a model of it, and what
-- holds of it.
--
-- A program's processes are coroutines. Each is bound to an environment, whose queue holds tokens:
-- a time, a priority, and the coroutine to resume or the handler to invoke. The environment takes
-- the first token, moves its clock, and resumes the coroutine; that awaits a timeout, another
-- coroutine, a composition of awaitables or a synchronization primitive, each of which makes a
-- token and puts it into the queue, now or later.
--
-- The parts, and the files that model them:
--   Misc/Time        include/cxxdes/misc/time.hpp: `time` is Time, `time::count` count, the
--                    expression nodes Node and node_count, `time_expr` TimeExpr, the conversion
--                    between integer types narrow_assign.
--   Misc/RefCount    include/cxxdes/misc/reference_counted.hpp: the count and the owning pointer.
--   Core/Token       include/cxxdes/core/impl/token.ipp and impl/defs.ipp, and `token_comp`.
--   Core/Queue       `std::priority_queue`, as an interface with laws, and an implementation of it
--                    that shows the laws can hold.
--   Core/World       the state: an `environment`, and the tokens, handlers and coroutines that its
--                    pointers lead to. A pointer is an index into a table, null is `none`.
--   Core/Schedule    the loop that schedules a list of tokens from the present time.
--   Core/Environment include/cxxdes/core/impl/environment.ipp: `step`, `run`, `run_until`, `reset`.
--   Core/Coroutine   include/cxxdes/core/impl/coroutine.ipp, impl/coroutine_data.ipp, and the
--                    members of coroutine_data in impl/environment.ipp; Core/Coroutine/Stack and
--                    Calls model impl/subroutine.ipp and `coroutine_data::resume`, and
--                    Core/Coroutine/Accessors impl/async.ipp.
--   Core/Lifetime    include/cxxdes/core/impl/coroutine.ipp and impl/coroutine_data.ipp: the owners of
--                    a coroutine's state over Misc/RefCount, which are its handles, its promise and
--                    others, and the destruction of its frame (destroy_if_not_started).
--   Core/Composition include/cxxdes/core/impl/any_of.ipp: a child is any type with the operations of
--                    the concept `awaitable`.
--   Core/Timeout     include/cxxdes/core/impl/timeout.ipp.
--   Core/Environment/Agenda
--                    the specification of `step`: a bag of events, a quotient of lists.
--   Core/Process     coroutines of a program: bodies as trees (Body), what the promise types and
--                    `await_transform` do with them (create, await_in, drive), the awaitables of the
--                    library (Leaf, Layer), and the coroutines that the library writes itself:
--                    impl/sequential.ipp, impl/co_with.ipp, impl/compositions.ipp, `as_coroutine`, and
--                    the wrapping variants of impl/async.ipp.
--   Core/Simulation  include/cxxdes/core/simulation.hpp.
--   Sync             include/cxxdes/sync: event, semaphore, mutex, queue, resource;
--                    Sync/Queue/Channel is the specification of the queue. Sync/Program has the
--                    objects in a store, waits and wakes as awaitables of bodies (with_events), and
--                    the operations as bodies with their loops (operation_body), beside their rounds.
--   Examples         examples/exceptions.cpp, any_of.cpp, return_value.cpp,
--                    return_value_and_timeout.cpp, lazy_timeout.cpp, process_rewrite.cpp,
--                    compositions_lvalueref.cpp, pitfall.cpp, capture_return.cpp, debug.cpp,
--                    get_environment.cpp, mutex.cpp, semaphore.cpp, queue.cpp, resource.cpp,
--                    event.cpp, clocks.cpp, bug.cpp, interrupt_test.cpp, complicated.cpp,
--                    tests/process.test.cpp and tests/controlflow.test.cpp, as bodies that the
--                    model runs. An expectation of the clock is a line with its time. Depth and
--                    Recursion are about the recursive ones, to any depth, Ticking about an endless
--                    loop, for any number of rounds.
--   Base             shared types, tests and lemmas, and integers over native numbers.
--   Tests            runs at concrete inputs.
--
-- An operation takes the state and returns it; one that throws returns the state it leaves behind
-- with the exception (Outcome), one that dereferences a null pointer returns `none`. A loop around
-- `co_await event_.wait()` is modelled by its rounds: a round ends in a wait or finishes, and the
-- rounds of all users interleave in any order with other steps, which leave the tokens of the
-- object's event to the coroutines that they resume (Step, Reach, and Spares in
-- Sync/Event/Waiters). Sync/Program has the loops themselves, in bodies.
--
-- Fuel: `run` and `run_until` take fuel, and end for fuel beyond any measure that the steps take
-- down, which a program with endless events does not have; `resume` of a coroutine's frames
-- likewise, for any measure that the calls and the ends of subroutines take down. A loop in a body
-- (loop) is run round by round, and a resumption may run as many rounds as the world says
-- (rounds); a program that has used them up is `stuck`. A resumption needs one round for each loop
-- that it enters, and one for each round behind which the loop goes on without a pause: a wait in
-- a loop ends the resumption. The examples get 4. The loop of the narrowing conversion gets the
-- size of the count as fuel, which every round takes down.
--
-- Parameters: the priority queue; `resume` in Core/Environment, which runs the body of a coroutine
-- until it suspends, and where stated leaves the clock alone, which is private to the environment;
-- `run_frame` in Core/Coroutine/Stack, which runs a frame of a coroutine, and in Calls is a pause,
-- a call or an end of a subroutine (perform); the awaitables that a composition is made of;
-- `co_main` of a simulation. Core/Process fills `resume` (resume_frame) and the awaitables
-- (leaf_await and layer_await; with_events of Sync/Program), and Examples `co_main`. A call of a
-- subroutine is its body put in place of the call (inline), as the same coroutine goes on with it.
--
-- Bounds: times, priorities and counts are integers of any size, so overflow of intmax_t,
-- undefined in the source, is not modelled; the counter of a handler wraps at 2 ^ 64, and the
-- narrowing conversion wraps at its width.
--
-- Not modelled: custom tags of `await_transform`; the destruction of events; source locations,
-- floating-point conversions and debug output. The choice of copies or references in `by_value`,
-- `by_reference` and `copy_rvalues` is a matter of C++ lifetimes, of which the model has none.
pub mod Base
pub mod Misc
pub mod Core
pub mod Sync
pub mod Tests
pub mod Examples
