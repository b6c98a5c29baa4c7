-- ===== src/Saving/Loop.antt =====
-- The loop of `saveState` of main.go, from the start to the end of the context.
use captcha_protect.Base.{
  ℕ, ◌+◌, ◌≤◌, ◌<◌, ◌≡◌, ◌⊎◌, refl, inl, inr, Bool, true, false, not, List, [], ◌∷◌, ◌++◌, Option,
  none, some, Text, arith, All, AllPairs, AllPairs-map, All-map, if◌then◌else◌, Bool-cases,
}
use captcha_protect.Cache.{Cache}
use captcha_protect.Middleware.{State}
use captcha_protect.Saving.{
  save_tick, saved_recently, save_at_shutdown, has_unsaved_state, save_state_now,
  state_save_interval,
}
use captcha_protect.Saving.Jitter.{save_interval, save_interval_bounds}

-- What wakes the loop: the ticker, with the time, or the end of the context. Each with whether the
-- file can be written then, what requests do before, and what they do during a save.
pub data Turn (C : Cache) : Type 0 where
  ticked : ℕ → Bool → (State C → State C) → (State C → State C) → Turn C
  stopped : Bool → (State C → State C) → (State C → State C) → Turn C

-- The times at which the state file is written.
abbrev pub noted : Bool → ℕ → List ℕ → List ℕ
noted saved now saves = if saved then now ∷ saves else saves

module _ {C : Cache} where
  -- The times of the saves at ticks, and the state at the end.
  unfoldable pub save_loop : ℕ → List (Turn C) → Option ℕ → State C → List ℕ × State C
  save_loop interval [] last_save st = ([], st)
  save_loop interval (stopped written before during ∷ turns) last_save st =
      ([], save_at_shutdown written during (before st))
  save_loop interval (ticked now written before during ∷ turns) last_save st =
      let (last_save', saved, st') = save_tick interval now written during (last_save, before st) in
      let (saves, final) = save_loop interval turns last_save' st' in (noted saved now saves, final)

  -- `saveState`, from whether the file could be opened and closed.
  unfoldable pub save_state : Bool → Bool → ℕ → List (Turn C) → State C → List ℕ × State C
  save_state opened closed interval turns st =
      if not opened
      then ([], st)
      else if not closed
      then ([], st)
      else save_loop interval turns none st

-- A save comes at least an interval after the last one, if there was one.
abbrev After : ℕ → Option ℕ → ℕ → Type 0
After interval none t = Unit
After interval (some last) t = last + interval ≤ t

-- A turn leaves the last save as it was, or saves, late enough, and notes when.
abbrev Noted : ℕ → ℕ → Option ℕ → Option ℕ → Bool → Type 0
Noted interval now last_save last_save' saved =
    ((saved ≡ false) × (last_save' ≡ last_save))
    ⊎ ((saved ≡ true) × (last_save' ≡ some now) × After interval last_save now)

not_recent :
    (interval now : ℕ) (last_save : Option ℕ)
    → 0 < interval
    → saved_recently interval now last_save ≡ false
    → After interval last_save now
not_recent interval now none positive old = tt
not_recent interval now (some t) positive old = ground arith

-- What comes an interval after a save comes an interval after what is before it.
After-trans :
    (interval now t : ℕ) (last_save : Option ℕ)
    → After interval last_save now
    → now + interval ≤ t
    → After interval last_save t
After-trans interval now t none first then' = tt
After-trans interval now t (some last) first then' = omega arith

noted-AllPairs :
    (interval now : ℕ) (saves : List ℕ) (last_save last_save' : Option ℕ) (saved : Bool)
    → Noted interval now last_save last_save' saved
    → All (After interval last_save') saves
    → AllPairs (λ t t'. t + interval ≤ t') saves
    → All (After interval last_save) (noted saved now saves)
      × AllPairs (λ t t'. t + interval ≤ t') (noted saved now saves)
noted-AllPairs interval now saves last_save last_save' saved (inl (kept, same)) all pairs =
    rw kept (rw (← same) all, pairs)
noted-AllPairs interval now saves last_save last_save' saved (inr (made, new, late)) all pairs =
    let later : All (λ t. now + interval ≤ t) saves = rw new at all in
    rw made (
      (
        late,
        All-map (λ t. now + interval ≤ t) (After interval last_save) saves
            (λ t. After-trans interval now t last_save late) later,
      ),
      (later, pairs),
    )

module _ {C : Cache} (interval : ℕ) (positive : 0 < interval) where
  save_tick-Noted :
      (now : ℕ) (written : Bool) (during : State C → State C) (last_save : Option ℕ) (st : State C)
      → let (last_save', saved, _) = save_tick interval now written during (last_save, st) in
        Noted interval now last_save last_save' saved
  unfolding save_tick save_state_now
  save_tick-Noted now written during last_save st = elim (Bool-cases (has_unsaved_state st)) [
    | inr e ↦ rw e (inl (refl, refl))
    | inl e ↦ elim (Bool-cases (saved_recently interval now last_save)) [
      | inl recent ↦ rw (e, recent) (inl (refl, refl))
      | inr old ↦ elim (Bool-cases written) [
        | inl w ↦ rw (e, old, w) (inr (refl, refl, not_recent interval now last_save positive old))
        | inr w ↦ rw (e, old, w) (inl (refl, refl))
      ]
    ]
  ]

  save_loop-AllPairs :
      (turns : List (Turn C)) (last_save : Option ℕ) (st : State C)
      → let (saves, _) = save_loop interval turns last_save st in
        All (After interval last_save) saves × AllPairs (λ t t'. t + interval ≤ t') saves
  unfolding save_loop
  save_loop-AllPairs [] last_save st = (tt, tt)
  save_loop-AllPairs (stopped written before during ∷ turns) last_save st = (tt, tt)
  save_loop-AllPairs (ticked now written before during ∷ turns) last_save st =
      let (last_save', saved, st') = save_tick interval now written during (last_save, before st) in
      let step = save_tick-Noted now written during last_save (before st) in
      let (all, pairs) = save_loop-AllPairs turns last_save' st' in
      noted-AllPairs interval now _ last_save last_save' saved step all pairs

-- An event of the ticker.
abbrev pub IsTick : {C : Cache} → Turn C → Type 0
IsTick (ticked now written before during) = Unit
IsTick (stopped written before during) = ⊥

module _ {C : Cache} where
  -- Whenever the ticker wakes it, the save loop lets at least a minute pass between two writes of
  -- the state file at ticks, whatever the jitter of its interval, with a random source that keeps
  -- below its maximum, or fails. The save at the end of the context is not among them.
  pub save_state-AllPairs :
      (random : ℕ → Option ℕ) (hostname : Text) (pid start : ℕ) (opened closed : Bool)
      (turns : List (Turn C)) (st : State C)
      → ((max jitter : ℕ) → random max ≡ some jitter → jitter < max)
      → let (saves, _) =
          save_state opened closed (save_interval random hostname pid start) turns st in
        AllPairs (λ t t'. t + state_save_interval ≤ t') saves
  unfolding save_state
  save_state-AllPairs random hostname pid start false closed turns st draws = tt
  save_state-AllPairs random hostname pid start true false turns st draws = tt
  save_state-AllPairs random hostname pid start true true turns st draws =
      let interval = save_interval random hostname pid start in
      let (long, _) = save_interval_bounds random hostname pid start draws in
      let (_, pairs) = save_loop-AllPairs interval (omega arith) turns none st in
      AllPairs-map (λ t t'. t + interval ≤ t') (λ t t'. t + state_save_interval ≤ t') _
        (λ t t' late. omega arith) pairs

  saved_at_stop :
      (st : State C) → has_unsaved_state (save_at_shutdown true (λ (s : State C). s) st) ≡ false
  unfolding save_at_shutdown save_state_now has_unsaved_state
  saved_at_stop st = ground arith

  save_loop_stopped :
      (interval : ℕ) (ticks rest : List (Turn C)) (before : State C → State C)
      (last_save : Option ℕ) (st : State C)
      → All IsTick ticks
      → let (_, final) =
          save_loop interval (ticks ++ (stopped true before (λ s. s) ∷ rest)) last_save st in
        has_unsaved_state final ≡ false
  unfolding save_loop
  save_loop_stopped interval [] rest before last_save st h = saved_at_stop (before st)
  save_loop_stopped interval (ticked now written before' during ∷ ticks) rest before last_save st
        (_, h) =
      let (last_save', _, st') = save_tick interval now written during (last_save, before' st) in
      save_loop_stopped interval ticks rest before last_save' st' h
  save_loop_stopped interval (stopped written before' during ∷ ticks) rest before last_save st
        (h, _) =
      absurd h

  -- If the state file can be opened at the start, then whatever happened before, the end of the
  -- context leaves nothing unsaved, if the file can be written then and no request comes meanwhile.
  pub save_state_stopped :
      (interval : ℕ) (ticks rest : List (Turn C)) (before : State C → State C) (st : State C)
      → All IsTick ticks
      → let (_, final) =
          save_state true true interval (ticks ++ (stopped true before (λ s. s) ∷ rest)) st in
        has_unsaved_state final ≡ false
  unfolding save_state
  save_state_stopped interval ticks rest before st h =
      save_loop_stopped interval ticks rest before none st h
