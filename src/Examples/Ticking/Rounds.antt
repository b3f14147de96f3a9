-- ===== src/Examples/Ticking/Rounds.antt =====
-- A round of the endless loop `clock` of src/examples/clocks.cpp, from one wait to the next.
use Prim.Native.String.{String}
use libcxxdes.Base.{
  ℕ, zero, suc, ◌<◌, ◌≡◌, refl, ap, ◌∙◌, Option, none, some, List, [], ◌∷◌, ◌++◌, arith,
}
use libcxxdes.Base.Int.{ℤ, pos, ◌+ℤ◌, ◌≤ℤ◌, +ℤ_parts}
use libcxxdes.Core.Token.{inherit}
use libcxxdes.Core.Queue.{PriorityQueue}
use libcxxdes.Core.Environment.{stepped, step}
use libcxxdes.Core.Timeout
use libcxxdes.Core.Timeout.{ticks, timeout}
use libcxxdes.Core.Process.{
  Result, returned, raised, suspended_on, Program, drive, drive_at, jump_for, resume_frame, Await,
  leaf_value, layer_value, sleep, Value, nothing, leaf_await, layer_await, co_return, co_throw,
  loop_round, loop_next, inline, outside_try, await_then,
}
use libcxxdes.Core.Process.Sequence.{running, settled, step-resumes}
use libcxxdes.Examples.Base.{
  Code, State, Line, line, print, leaf, delay, await_only, resume_code, Awaiter, Variables,
}
use libcxxdes.Examples.Endless.{forever, clock}

abbrev pub all_awaits : Await (Program Awaiter Value Variables) Awaiter Value
all_awaits = layer_await (layer_await leaf_await)

module _ (p : ℕ) (name : String) where
  -- The clock is the only one with an event, at `t`; `out` has been printed.
  pub record IsTicking (c tok : ℕ) (t : ℤ) (out : List Line) (w : State) : Type 0 where
    pub queued : w.queue ≡ tok ∷ []
    pub at_time : (w.token tok).time ≡ t
    pub no_handler : (w.token tok).handler ≡ none
    pub resumes : (w.token tok).coro_data ≡ some c
    pub not_past : w.now ≤ℤ t
    pub written : w.program.shared.out ≡ out
    pub may_loop : 0 < w.program.rounds
    pub goes_on :
        (v : State)
        → v.program.frames c ≡ w.program.frames c
        → resume_code c v ≡ drive all_awaits c (clock p name) v

  frame_ticks :
      (c : ℕ) (b : Timeout.Timeout) (k : Result Value → Code) (v : State)
      → v.program.frames c ≡ suspended_on (leaf (sleep b)) k
      → k (returned nothing) ≡ clock p name
      → resume_code c v ≡ drive all_awaits c (clock p name) v
  unfolding resume_frame layer_await leaf_await layer_value leaf_value
  frame_ticks c b k v e h = rw (resume_frame, e) (ap (λ x. drive all_awaits c x v) h)

  abbrev clock_round : ℕ → Code
  clock_round s = print name (await_only (leaf (delay p)) (co_return (some 0)))

  abbrev behind_clock : Result (Option ℕ) → Code
  behind_clock r = elim r [ returned x ↦ co_return none | raised e ↦ co_throw e ]

  abbrev round_of_clock : ℕ → ℕ → State → State
  round_of_clock m c w =
      drive_at all_awaits (jump_for all_awaits m) c (loop_round clock_round 0 behind_clock) w

  drive-clock :
      (m c : ℕ) (w : State)
      → w.program.rounds ≡ suc m
      → drive all_awaits c (clock p name) w ≡ round_of_clock m c w
  unfolding drive drive_at jump_for clock forever
  drive-clock m c w e =
      ap (λ n. jump_for all_awaits n c (loop_round clock_round 0 behind_clock) w) e

  round-IsTicking :
      (m c tok : ℕ) (t : ℤ) (out : List Line) (w : State)
      → IsTicking c tok t out w
      → IsTicking c w.token_count
          (t +ℤ pos p)
          (out ++ line name t ∷ [])
          (settled (round_of_clock m c (running c t w)))
  unfolding drive_at loop_round inline clock forever layer_await leaf_await Timeout.await_suspend
      Timeout.await_ready Timeout.await_bind timeout Timeout.resume_time await_then
  round-IsTicking m c tok t out w s = record {
    queued = refl;
    at_time = ground arith;
    no_handler = ground arith;
    resumes = ground arith;
    not_past = omega (arith, +ℤ_parts t (pos p));
    written = ap (λ l. l ++ line name t ∷ []) s.written;
    may_loop = s.may_loop;
    goes_on = λ v e.
        frame_ticks c
          (record (Timeout.await_bind (timeout (ticks (pos p)) inherit) (w.coroutine c).priority) {
            tkn = some w.token_count;
          })
          (λ r.
            inline (outside_try (λ x. co_return (some 0)) r) (loop_next clock_round behind_clock))
          v (e ∙ ground arith) refl;
  }

  round-now : (m c : ℕ) (t : ℤ) (w : State) → (settled (round_of_clock m c (running c t w))).now ≡ t
  unfolding drive_at loop_round inline layer_await leaf_await Timeout.await_suspend
      Timeout.await_ready Timeout.await_bind timeout await_then
  round-now m c t w = refl

  pub step-IsTicking :
      (q : PriorityQueue) (c tok : ℕ) (t : ℤ) (out : List Line) (w : State)
      → IsTicking c tok t out w
      → (u : State) × (step q resume_code w ≡ stepped u)
        × IsTicking c w.token_count (t +ℤ pos p) (out ++ line name t ∷ []) u
        × (u.now ≡ t)
  step-IsTicking q c tok t out w s =
      let (m, e) = above_zero w.program.rounds s.may_loop in
      (
        settled (round_of_clock m c (running c t w)),
        step-resumes q resume_code c tok t w s.queued s.at_time s.no_handler s.resumes s.not_past
            ∙ ap (λ v. stepped (settled v))
                (s.goes_on (running c t w) refl ∙ drive-clock m c (running c t w) e),
        round-IsTicking m c tok t out w s,
        round-now m c t w,
      )
    where
      above_zero : (n : ℕ) → 0 < n → (m : ℕ) × (n ≡ suc m)
      above_zero zero h = absurd (omega arith)
      above_zero (suc n) h = (n, refl)
