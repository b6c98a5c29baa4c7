-- ===== src/Saving/Trace.antt =====
-- A save beside requests: the file never lags behind the visitors without a mark.
use captcha_protect.Base.{
  ℕ, suc, ◌+◌, ◌-◌, ◌<◌, ◌≤◌, ◌≡◌, refl, ap, ◌%◌, if_both, Bool, true, false, ◌≢◌, List, [], ◌∷◌,
  Text, arith, length, u64_mod, if◌then◌else◌, ◌==◌,
}
use captcha_protect.Cache.{Cache}
use captcha_protect.Config.{Config}
use captcha_protect.Middleware.{State}
use captcha_protect.Verify.{mark_state_dirty}
use captcha_protect.Saving.{has_unsaved_state, current_state_dirty, mark_state_saved}
use captcha_protect.Saving.Marks.{mark_count}

-- Where the save loop stands in `saveStateNow`: outside, before the file is written, or after; with
-- the counter as it was at the start.
pub data Saving : Type 0 where
  idle : Saving
  started written : ℕ → Saving

-- The state, the number of requests that have remembered a visitor and not yet marked the state,
-- and the cache as the file last showed it.
pub record World (C : Cache) : Type 0 where
  pub st : State C
  pub pending : ℕ
  pub file : C.State

-- The steps that requests and the save loop take in any order: a request remembers a visitor
-- (`verifiedCache.Set`), and later marks the state; a save begins, writes the file or fails to, and
-- ends.
pub data Event : Type 0 where
  remembered : ℕ → Text → ℕ → Event
  marked save_began save_ended : Event
  file_written : Bool → Event

module _ {C : Cache} (c : Config) where
  unfoldable pub step : Event → World C → Saving → World C × Saving
  step (remembered now key exp) w saving = (
    record w {
      st = record w.st { verified_cache = C.set w.st.verified_cache now key true exp };
      pending = suc w.pending;
    },
    saving,
  )
  step marked w saving = (
    if w.pending == 0
        then w
        else record w { st = mark_state_dirty c w.st; pending = w.pending - 1 },
    saving,
  )
  step save_began w idle = (w, started (current_state_dirty w.st))
  step (file_written true) w (started d) = (record w { file = w.st.verified_cache }, written d)
  step (file_written false) w (started d) = (w, idle)
  step save_ended w (written d) = (record w { st = mark_state_saved d w.st }, idle)
  step save_began w saving = (w, saving)
  step (file_written ok) w saving = (w, saving)
  step save_ended w saving = (w, saving)

  unfoldable pub steps : List Event → World C → Saving → World C × Saving
  steps [] w saving = (w, saving)
  steps (e ∷ es) w saving = let (w', saving') = step e w saving in steps es w' saving'

word : (n : ℕ) → n < u64_mod → n % u64_mod ≡ n
word n fits = omega arith

module _ {C : Cache} where
  -- The counter at the start of the save that runs is between the two counters, and what the file
  -- shows is the cache if no change has been marked since.
  abbrev SavingInvariant : World C → Saving → Type 0
  SavingInvariant w idle = w.st.state_saved_dirty ≤ w.st.state_dirty
  SavingInvariant w (started d) = (w.st.state_saved_dirty ≤ d) × (d ≤ w.st.state_dirty)
  SavingInvariant w (written d) =
      (w.st.state_saved_dirty ≤ d)
      × (d ≤ w.st.state_dirty)
      × (w.pending ≡ 0 → w.st.state_dirty ≡ d → w.file ≡ w.st.verified_cache)

  abbrev Shown : World C → Type 0
  Shown w = w.pending ≡ 0 → w.st.state_dirty ≡ w.st.state_saved_dirty → w.file ≡ w.st.verified_cache

  -- The counter after a step is below a bound that grows by one.
  abbrev After : ℕ → World C × Saving → Type 0
  After bound (w, saving) = SavingInvariant w saving × Shown w × (w.st.state_dirty ≤ bound + 1)

  marked_fits :
      (c : Config) (w : World C)
      → c.persistent_state_file ≢ []
      → w.st.state_dirty + 1 < u64_mod
      → mark_state_dirty c w.st ≡ record w.st { state_dirty = w.st.state_dirty + 1 }
  marked_fits c w on fits =
      rw (mark_count c w.st on)
        (ap (λ n. record w.st { state_dirty = n }) (word (w.st.state_dirty + 1) fits))

  -- A change that is marked moves the counter past every save that has begun.
  marked-After :
      (c : Config) (w : World C) (saving : Saving)
      → c.persistent_state_file ≢ []
      → w.st.state_dirty + 1 < u64_mod
      → SavingInvariant w saving
      → After w.st.state_dirty
          (record w { st = mark_state_dirty c w.st; pending = w.pending - 1 }, saving)
  marked-After c w idle on fits inv =
      rw (marked_fits c w on fits) (omega arith, (λ p q. ground arith), omega arith)
  marked-After c w (started d) on fits inv =
      rw (marked_fits c w on fits) ((omega arith, omega arith), (λ p q. ground arith), omega arith)
  marked-After c w (written d) on fits (low, high, _) =
      rw (marked_fits c w on fits)
        ((low, omega arith, λ p q. ground arith), (λ p q. ground arith), omega arith)

  remembered-After :
      (c : Config) (now : ℕ) (key : Text) (exp : ℕ) (w : World C) (saving : Saving)
      → SavingInvariant w saving
      → After w.st.state_dirty (step c (remembered now key exp) w saving)
  unfolding step
  remembered-After c now key exp w idle inv = (inv, (λ p q. ground arith), omega arith)
  remembered-After c now key exp w (started d) inv = (inv, (λ p q. ground arith), omega arith)
  remembered-After c now key exp w (written d) (low, high, _) =
      ((low, high, λ p q. ground arith), (λ p q. ground arith), omega arith)

  step-After :
      (c : Config) (e : Event) (w : World C) (saving : Saving)
      → c.persistent_state_file ≢ []
      → w.st.state_dirty + 1 < u64_mod
      → SavingInvariant w saving
      → Shown w
      → After w.st.state_dirty (step c e w saving)
  unfolding step
  step-After c (remembered now key exp) w saving on fits inv shown =
      remembered-After c now key exp w saving inv
  step-After c marked w saving on fits inv shown =
      if_both (λ w'. After w.st.state_dirty (w', saving)) (w.pending == 0) (inv, shown, omega arith)
        (marked-After c w saving on fits inv)
  step-After c save_began w idle on fits inv shown = ((inv, omega arith), shown, omega arith)
  step-After c (file_written true) w (started d) on fits inv shown =
      ((inv.0, inv.1, λ p q. refl), (λ p q. refl), omega arith)
  step-After c (file_written false) w (started d) on fits inv shown =
      (omega arith, shown, omega arith)
  step-After c save_ended w (written d) on fits inv shown = (inv.1, inv.2, omega arith)
  step-After c save_began w (started d) on fits inv shown = (inv, shown, omega arith)
  step-After c save_began w (written d) on fits inv shown = (inv, shown, omega arith)
  step-After c (file_written true) w idle on fits inv shown = (inv, shown, omega arith)
  step-After c (file_written false) w idle on fits inv shown = (inv, shown, omega arith)
  step-After c (file_written true) w (written d) on fits inv shown = (inv, shown, omega arith)
  step-After c (file_written false) w (written d) on fits inv shown = (inv, shown, omega arith)
  step-After c save_ended w idle on fits inv shown = (inv, shown, omega arith)
  step-After c save_ended w (started d) on fits inv shown = (inv, shown, omega arith)

  steps-Shown :
      (c : Config) (es : List Event) (w : World C) (saving : Saving)
      → c.persistent_state_file ≢ []
      → w.st.state_dirty + length es < u64_mod
      → SavingInvariant w saving
      → Shown w
      → Shown (steps c es w saving).0
  unfolding steps
  steps-Shown c [] w saving on fits inv shown = shown
  steps-Shown c (e ∷ es) w saving on fits inv shown =
      let (inv', shown', bound) = step-After c e w saving on (omega arith) inv shown in
      let (w', saving') = step c e w saving in
      steps-Shown c es w' saving' on (omega arith) inv' shown'

  -- With a state file, whatever requests and saves do in whatever order, as long as the counter of
  -- changes does not wrap around: from a state that was saved, when no request is between
  -- remembering a visitor and marking the state, and nothing is unsaved, the file shows the
  -- verified visitors as they are.
  pub file-steps :
      (c : Config) (es : List Event) (st : State C)
      → c.persistent_state_file ≢ []
      → st.state_dirty ≡ st.state_saved_dirty
      → st.state_dirty + length es < u64_mod
      → let w = (steps c es (record { st = st; pending = 0; file = st.verified_cache }) idle).0 in
        w.pending ≡ 0 → has_unsaved_state w.st ≡ false → w.file ≡ w.st.verified_cache
  unfolding has_unsaved_state
  file-steps c es st on clean fits settled saved =
      steps-Shown c es (record { st = st; pending = 0; file = st.verified_cache }) idle on fits
        (omega arith) (λ p q. refl) settled (ground arith)
