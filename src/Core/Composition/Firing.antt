-- ===== src/Core/Composition/Firing.antt =====
-- include/cxxdes/core/impl/any_of.ipp: when the handler of a composition schedules its output
-- token.
use native.Mathlib.Nat.{add-mod_right, mod-eq_of_lt}
use libcxxdes.Base.{
  ℕ, ◌+◌, ◌-◌, ◌^◌, ◌≡◌, ◌≢◌, refl, ◌∙◌, ◌<◌, ◌≤◌, true, false, none, some, List, [], ◌∷◌, ◌++◌,
  All, All-map, length, arith,
}
use libcxxdes.Base.Int.{◌+ℤ◌}
use libcxxdes.Core.Token.{Exception}
use libcxxdes.Core.World.{World, Condition, any_of, all_of, Outcome, done, threw, set_handler}
use libcxxdes.Core.Composition.Handler.{holds, decrement, fire, invoke}

decrement_lem : (n m : ℕ) → m ≡ n + 1 → m < 2 ^ 64 → decrement m ≡ n
decrement_lem n m e h =
    let regroup : m + (2 ^ 64 - 1) ≡ n + 2 ^ 64 = omega arith in
    rw (regroup, add-mod_right n (2 ^ 64)) (mod-eq_of_lt (omega arith))

module _ {S : Type 0} where
  -- The tokens of children, processed one after another.
  pub invoke_all : ℕ → List ℕ → World S → Outcome (World S)
  invoke_all h [] w = done w
  invoke_all h (t ∷ ts) w = elim (invoke h t w) [
    | done v ↦ invoke_all h ts v
    | threw e v ↦ threw e v
  ]

  -- The output token `c` has been scheduled for the child token `t`, and for nothing else.
  pub record IsFired (c t : ℕ) (w v : World S) : Type 0 where
    pub queued : v.queue ≡ c ∷ w.queue
    pub at_time : (v.token c).time ≡ (w.token c).time +ℤ (w.token t).time
    pub priority : (v.token c).priority ≡ (w.token t).priority
    pub resumes : (v.token c).coro_data ≡ (w.token t).coro_data
    pub other_tokens : (i : ℕ) → i ≢ c → v.token i ≡ w.token i

  -- The handler `h` waits for `n` more children, with its output token `c` still to come.
  abbrev pub IsArmed : ℕ → Condition → ℕ → ℕ → World S → Type 0
  IsArmed h cond n c w =
      ((w.handler h).condition ≡ cond)
      × ((w.handler h).remaining ≡ n)
      × ((w.handler h).completion_tkn ≡ some c)

  abbrev pub IsCalm : World S → ℕ → Type 0
  IsCalm w t = (w.token t).eptr ≡ none

  counted : ℕ → World S → World S
  counted h w =
      set_handler h (record (w.handler h) { remaining = decrement (w.handler h).remaining }) w

  fired : ℕ → ℕ → ℕ → World S → World S
  unfolding counted
  fired h t c w =
      set_handler h
        (record (w.handler h) {
          remaining = decrement (w.handler h).remaining;
          completion_tkn = none;
        })
        (fire c t (counted h w))

  fired-IsFired : (h t c : ℕ) (w : World S) → IsFired c t w (fired h t c w)
  unfolding fired fire set_handler
  fired-IsFired h t c w = record {
    queued = refl;
    at_time = ground arith;
    priority = ground arith;
    resumes = ground arith;
    other_tokens = λ i d. ground arith;
  }

  -- A child counts down, and fires the output token if the condition then holds and it has not
  -- fired.
  invoke-fires :
      (h t c : ℕ) (w : World S)
      → IsCalm w t
      → (w.handler h).completion_tkn ≡ some c
      → holds (w.handler h).condition (w.handler h).total (decrement (w.handler h).remaining) ≡ true
      → invoke h t w ≡ done (fired h t c w)
  unfolding invoke fired counted
  invoke-fires h t c w calm armed met = ground arith

  invoke-waits :
      (h t c : ℕ) (w : World S)
      → IsCalm w t
      → (w.handler h).completion_tkn ≡ some c
      → holds (w.handler h).condition (w.handler h).total (decrement (w.handler h).remaining)
        ≡ false
      → invoke h t w ≡ done (counted h w)
  unfolding invoke counted
  invoke-waits h t c w calm armed unmet = ground arith

  invoke-spent :
      (h t : ℕ) (w : World S)
      → IsCalm w t
      → (w.handler h).completion_tkn ≡ none
      → invoke h t w ≡ done (counted h w)
  unfolding invoke counted
  invoke-spent h t w calm spent = ground arith

  -- A child that carries an exception rethrows it, and the output token is not scheduled.
  pub invoke-throws :
      (h t : ℕ) (w : World S) (e : Exception)
      → (w.token t).eptr ≡ some e
      → (v : World S) × (invoke h t w ≡ threw e v) × (v.queue ≡ w.queue) × (v.token ≡ w.token)
  unfolding invoke counted
  invoke-throws h t w e carried = (counted h w, ground arith, refl, refl)

  counted-handler :
      (h : ℕ) (w : World S)
      → ((counted h w).handler h)
        ≡ record (w.handler h) { remaining = decrement (w.handler h).remaining }
  unfolding counted set_handler
  counted-handler h w = ground arith

  counted-queue : (h : ℕ) (w : World S) → (counted h w).queue ≡ w.queue
  unfolding counted set_handler
  counted-queue h w = refl

  counted-token : (h : ℕ) (w : World S) → (counted h w).token ≡ w.token
  unfolding counted set_handler
  counted-token h w = refl

  IsCalm-counted :
      (h : ℕ) (ts : List ℕ) (w : World S) → All (IsCalm w) ts → All (IsCalm (counted h w)) ts
  unfolding counted set_handler
  IsCalm-counted h ts w calm = calm

  IsFired-counted : (h c t : ℕ) (w v : World S) → IsFired c t (counted h w) v → IsFired c t w v
  unfolding counted set_handler
  IsFired-counted h c t w v f = record {
    queued = f.queued;
    at_time = f.at_time;
    priority = f.priority;
    resumes = f.resumes;
    other_tokens = f.other_tokens;
  }

  -- A handler of an `all_of` waits for the tokens `ts` and then `t`, fewer than 2 ^ 64, none with
  -- an exception. Processed in that order, the tokens end normally, and exactly the last schedules
  -- the output token, once: at its own time plus the output token's latency, with its priority and
  -- its coroutine.
  pub all_of-fires_last :
      (h c : ℕ) (ts : List ℕ) (t : ℕ) (w : World S)
      → IsArmed h all_of (length ts + 1) c w
      → length ts + 1 < 2 ^ 64
      → All (IsCalm w) ts
      → IsCalm w t
      → (v : World S) × (invoke_all h (ts ++ t ∷ []) w ≡ done v) × IsFired c t w v
  unfolding invoke_all holds
  all_of-fires_last h c [] t w armed small calm last =
      (fired h t c w, ground (arith, invoke-fires h t c w), fired-IsFired h t c w)
  all_of-fires_last h c (x ∷ ts) t w armed small calm last =
      let (v, ran, here) =
        all_of-fires_last h c ts t (counted h w) armed' (omega arith) (IsCalm-counted h ts w calm.1)
          last' in
      (v, ground (arith, left, invoke-waits h x c w, ran), IsFired-counted h c t w v here)
    where
      left : decrement (w.handler h).remaining ≡ length ts + 1
      left =
          decrement_lem (length ts + 1) (w.handler h).remaining (omega (arith, armed.1))
            (omega (arith, armed.1))

      armed' : IsArmed h all_of (length ts + 1) c (counted h w)
      armed' = rw (counted-handler h w) (armed.0, left, armed.2)

      last' : IsCalm (counted h w) t
      last' = (IsCalm-counted h (t ∷ []) w (last, tt)).0

  spent-All :
      (h : ℕ) (ts : List ℕ) (w : World S)
      → (w.handler h).completion_tkn ≡ none
      → All (IsCalm w) ts
      → (v : World S) × (invoke_all h ts w ≡ done v) × (v.queue ≡ w.queue) × (v.token ≡ w.token)
  unfolding invoke_all
  spent-All h [] w spent calm = (w, refl, refl, refl)
  spent-All h (t ∷ ts) w spent calm =
      let (v, ran, q, k) =
        spent-All h ts (counted h w) (rw (counted-handler h w) spent)
          (IsCalm-counted h ts w calm.1) in
      (v, ground (arith, invoke-spent h t w, ran), q ∙ counted-queue h w, k ∙ counted-token h w)

  fired-eptr : (h t c i : ℕ) (w : World S) → ((fired h t c w).token i).eptr ≡ (w.token i).eptr
  unfolding fired fire set_handler
  fired-eptr h t c i w = ground arith

  fired-spent : (h t c : ℕ) (w : World S) → ((fired h t c w).handler h).completion_tkn ≡ none
  unfolding fired set_handler
  fired-spent h t c w = ground arith

  IsFired-same :
      (c t : ℕ) (w u v : World S)
      → IsFired c t w u
      → v.queue ≡ u.queue
      → v.token ≡ u.token
      → IsFired c t w v
  IsFired-same c t w u v f q k = record {
    queued = q ∙ f.queued;
    at_time = rw k f.at_time;
    priority = rw k f.priority;
    resumes = rw k f.resumes;
    other_tokens = rw k f.other_tokens;
  }

  -- A handler of an `any_of` waits for some of its children, fewer than 2 ^ 64. The first token
  -- processed schedules the output token, once, at its own time plus the output token's latency,
  -- with its priority and its coroutine; the tokens behind it schedule nothing. None of the tokens
  -- carries an exception.
  pub any_of-fires_first :
      (h c t : ℕ) (ts : List ℕ) (w : World S) (n : ℕ)
      → IsArmed h any_of (n + 1) c w
      → n + 1 ≤ (w.handler h).total
      → n + 1 < 2 ^ 64
      → IsCalm w t
      → All (IsCalm w) ts
      → (v : World S) × (invoke_all h (t ∷ ts) w ≡ done v) × IsFired c t w v
  unfolding invoke_all holds
  any_of-fires_first h c t ts w n armed room small calm calms =
      let (v, ran, q, k) =
        spent-All h ts (fired h t c w) (fired-spent h t c w) (
          All-map (IsCalm w) (IsCalm (fired h t c w)) (λ i e. fired-eptr h t c i w ∙ e) ts calms) in
      (
        v,
        ground (arith, left, invoke-fires h t c w, ran),
        IsFired-same c t w (fired h t c w) v (fired-IsFired h t c w) q k,
      )
    where
      left : decrement (w.handler h).remaining ≡ n
      left = decrement_lem n (w.handler h).remaining armed.1 (omega (arith, armed.1))
