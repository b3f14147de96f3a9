-- ===== src/Core/Coroutine/Calls.antt =====
-- include/cxxdes/core/impl/coroutine_data.ipp and impl/subroutine.ipp: calls between the frames of
-- a coroutine, and when `resume` returns.
use mathlib.Core.Path.{subst}
use libcxxdes.Base.{
  ℕ, zero, suc, ◌<◌, ◌≡◌, ◌≢◌, refl, true, false, ◌⊎◌, inl, inr, Option-cases, none, some, List, [],
  ◌∷◌, ◌++◌, arith, ap,
}
use libcxxdes.Core.World.{World}
use libcxxdes.Core.Coroutine.Stack.{
  back, pop_back, Subroutine, Resumed, suspended, no_frame, out_of_fuel, push_coro, pop_coro,
  await_suspend_sub, final_suspend_sub, clear_continue, resume_round, resume,
}

pub back-snoc : (fs : List ℕ) (f : ℕ) → back (fs ++ f ∷ []) ≡ some f
unfolding back
back-snoc [] f = refl
back-snoc (g ∷ []) f = refl
back-snoc (g ∷ h ∷ fs) f = back-snoc (h ∷ fs) f

pop_back-snoc : (fs : List ℕ) (f : ℕ) → pop_back (fs ++ f ∷ []) ≡ fs
unfolding pop_back
pop_back-snoc [] f = refl
pop_back-snoc (g ∷ []) f = refl
pop_back-snoc (g ∷ h ∷ fs) f = ap (λ r. g ∷ r) (pop_back-snoc (h ∷ fs) f)

module _ {S : Type 0} where
  -- Where awaiting a subroutine suspends, its frame is on top of its coroutine's call stack and
  -- `should_continue` is set. In any later world with that call stack, whatever has become of the
  -- flag, the final suspension of the subroutine restores the stack as it was before the call and
  -- sets `should_continue`.
  pub call-returns :
      (s : Subroutine) (w v u : World S)
      → await_suspend_sub s w ≡ some v
      → (u.coroutine s.coro_data).call_stack ≡ (v.coroutine s.coro_data).call_stack
      → (back (v.coroutine s.coro_data).call_stack ≡ s.frame)
        × ((v.coroutine s.coro_data).should_continue ≡ true)
        × (((final_suspend_sub s u).coroutine s.coro_data).call_stack
            ≡ (w.coroutine s.coro_data).call_stack)
        × (((final_suspend_sub s u).coroutine s.coro_data).should_continue ≡ true)
  unfolding await_suspend_sub push_coro final_suspend_sub pop_coro
  call-returns s w v u called same = elim (Option-cases s.frame) [
    | inl e ↦ absurd (ground (arith, e))
    | inr (f, e) ↦ (
      ground (arith, e, back-snoc (w.coroutine s.coro_data).call_stack f),
      ground (arith, e),
      ground (arith, e, pop_back-snoc (w.coroutine s.coro_data).call_stack f),
      ground arith,
    )
  ]

-- How a frame that runs comes to its next suspension: in an awaitable or at its end, where `resume`
-- is not asked to go on; in a call of a subroutine; or at the end of a subroutine.
pub data FrameStep (S : Type 0) : Type 0 where
  pauses : World S → FrameStep S
  calls : Subroutine → World S → FrameStep S
  returns : Subroutine → World S → FrameStep S

pub FrameStep-cases :
    {S : Type 0} (b : FrameStep S)
    → ((v : World S) × (b ≡ pauses v))
      ⊎ ((s : Subroutine) × (v : World S) × (b ≡ calls s v))
      ⊎ ((s : Subroutine) × (v : World S) × (b ≡ returns s v))
FrameStep-cases (pauses v) = inl (v, refl)
FrameStep-cases (calls s v) = inr (inl (s, v, refl))
FrameStep-cases (returns s v) = inr (inr (s, v, refl))

module _ {S : Type 0} where
  -- The suspension, with what it does to the coroutine of the subroutine. A subroutine without a
  -- frame is ready, and not suspended on.
  unfoldable pub perform : FrameStep S → World S
  unfolding await_suspend_sub final_suspend_sub
  perform (pauses v) = v
  perform (calls s v) = elim (await_suspend_sub s v) [ none ↦ v | some u ↦ u ]
  perform (returns s v) = final_suspend_sub s v

  -- A frame of coroutine `c` that runs in `w` leaves `should_continue` to its calls and returns,
  -- which are in `c` itself and take the measure below `n`.
  abbrev pub Behaves : ℕ → (World S → ℕ) → ℕ → World S → FrameStep S → Type 0
  Behaves c measure n w (pauses v) =
      (v.coroutine c).should_continue ≡ (w.coroutine c).should_continue
  Behaves c measure n w (calls s v) =
      (s.coro_data ≡ c) × (s.frame ≢ none) × (measure (perform (calls s v)) < n)
  Behaves c measure n w (returns s v) = (s.coro_data ≡ c) × (measure (perform (returns s v)) < n)

module _ {S : Type 0} (behaviour : ℕ → World S → FrameStep S) (c : ℕ) where
  abbrev pub run_frame : ℕ → World S → World S
  run_frame f w = perform (behaviour f w)

  -- Rounds whose top frame calls or returns.
  pub data Rounds : World S → World S → Type 0 where
    here : {w : World S} → Rounds w w
    call_round :
        {w x v : World S} {f : ℕ} {s : Subroutine}
        → back (w.coroutine c).call_stack ≡ some f
        → behaviour f (clear_continue c w) ≡ calls s x
        → Rounds (perform (calls s x)) v
        → Rounds w v
    return_round :
        {w x v : World S} {f : ℕ} {s : Subroutine}
        → back (w.coroutine c).call_stack ≡ some f
        → behaviour f (clear_continue c w) ≡ returns s x
        → Rounds (perform (returns s x)) v
        → Rounds w v

  -- Where `resume` may end: where the top frame pauses, or without a frame to run.
  abbrev pub ResumeEnds : World S → Resumed S → Type 0
  ResumeEnds w (suspended v) =
      (u : World S) × (f : ℕ) × Rounds w u
      × (back (u.coroutine c).call_stack ≡ some f)
      × (behaviour f (clear_continue c u) ≡ pauses v)
  ResumeEnds w (no_frame u) = Rounds w u × (back (u.coroutine c).call_stack ≡ none)
  ResumeEnds w out_of_fuel = ⊥

  ResumeEnds-next :
      (w u : World S) (r : Resumed S)
      → ((v : World S) → Rounds u v → Rounds w v)
      → ResumeEnds u r
      → ResumeEnds w r
  ResumeEnds-next w u (suspended v) more (x, f, s, top, e) = (x, f, more x s, top, e)
  ResumeEnds-next w u (no_frame v) more (s, h) = (more v s, h)
  ResumeEnds-next w u out_of_fuel more h = h

  round-some :
      (w : World S) (f : ℕ) (b : FrameStep S)
      → back (w.coroutine c).call_stack ≡ some f
      → behaviour f (clear_continue c w) ≡ b
      → resume_round run_frame c w ≡ some (perform b)
  unfolding resume_round
  round-some w f b top e = rw (resume_round, top, e) refl

  round-pause :
      (w v : World S) (f : ℕ)
      → back (w.coroutine c).call_stack ≡ some f
      → behaviour f (clear_continue c w) ≡ pauses v
      → resume_round run_frame c w ≡ some v
  unfolding perform
  round-pause w v f top e = round-some w f (pauses v) top e

  round-none :
      (w : World S) → back (w.coroutine c).call_stack ≡ none → resume_round run_frame c w ≡ none
  unfolding resume_round
  round-none w top = rw (resume_round, top) refl

  -- A call and a return ask `resume` to go on, and a pause does not.
  calls-continue :
      (s : Subroutine) (v : World S)
      → s.coro_data ≡ c
      → s.frame ≢ none
      → ((perform (calls s v)).coroutine c).should_continue ≡ true
  unfolding perform await_suspend_sub push_coro
  calls-continue s v own has = ground (arith, own)

  returns-continue :
      (s : Subroutine) (v : World S)
      → s.coro_data ≡ c
      → ((perform (returns s v)).coroutine c).should_continue ≡ true
  unfolding perform final_suspend_sub pop_coro
  returns-continue s v own = ground (arith, own)

  cleared : (w : World S) → ((clear_continue c w).coroutine c).should_continue ≡ false
  unfolding clear_continue
  cleared w = ground arith

  -- Let every frame of a coroutine that runs come to a pause that leaves `should_continue` as it
  -- was, to the call of a subroutine of that coroutine with a frame, or to the end of one, and let
  -- the calls and the ends take a measure down. Then with fuel beyond the measure `resume` ends:
  -- behind the first round whose top frame pauses, where every earlier round was a call or an end,
  -- or with no frame to run.
  pub resume-Ends :
      (measure : World S → ℕ)
      → ((f : ℕ) (w : World S)
          → back (w.coroutine c).call_stack ≡ some f
          → Behaves c measure (measure w) (clear_continue c w) (behaviour f (clear_continue c w)))
      → (fuel : ℕ) (w : World S) → measure w < fuel
      → ResumeEnds w (resume run_frame fuel c w)
  unfolding resume
  resume-Ends measure behaves zero w h = elim h [ ]
  resume-Ends measure behaves (suc fuel) w h =
      elim (Option-cases (back (w.coroutine c).call_stack)) [
        | inl top ↦ rw (resume, round-none w top) (here, top)
        | inr (f, top) ↦ elim (FrameStep-cases (behaviour f (clear_continue c w))) [
          | inl (v, e) ↦
              let keeps : Behaves c measure (measure w) (clear_continue c w) (pauses v) =
                subst (Behaves c measure (measure w) (clear_continue c w)) e (behaves f w top) in
              rw (resume, round-pause w v f top e, keeps, cleared w) (w, f, here, top, e)
          | inr (inl (s, v, e)) ↦
              let (own, has, less) : Behaves c measure (measure w) (clear_continue c w)
                  (calls s v) =
                subst (Behaves c measure (measure w) (clear_continue c w)) e (behaves f w top) in
              rw (resume, round-some w f (calls s v) top e, calls-continue s v own has)
                (ResumeEnds-next w _ _ (λ v. call_round top e)
                  (resume-Ends measure behaves fuel _ (omega (arith, less))))
          | inr (inr (s, v, e)) ↦
              let (own, less) : Behaves c measure (measure w) (clear_continue c w) (returns s v) =
                subst (Behaves c measure (measure w) (clear_continue c w)) e (behaves f w top) in
              rw (resume, round-some w f (returns s v) top e, returns-continue s v own)
                (ResumeEnds-next w _ _ (λ v. return_round top e)
                  (resume-Ends measure behaves fuel _ (omega (arith, less))))
        ]
      ]
