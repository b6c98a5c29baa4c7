-- ===== src/Saving/Marks.antt =====
-- Changes that are made during a save.
use captcha_protect.Base.{
  ℕ, zero, suc, ◌+◌, ◌%◌, ◌<◌, ◌≡◌, ◌≢◌, refl, ◌∙◌, ltb, ◌↔◌, true, false, no_text_eq, [], arith,
  add64, u64_mod, if◌then◌else◌,
}
use captcha_protect.Cache.{Cache}
use captcha_protect.Config.{Config}
use captcha_protect.Middleware.{State}
use captcha_protect.Verify.{mark_state_dirty}
use captcha_protect.Saving.{has_unsaved_state, unsaved_state_changes, save_state_now}

-- Some changes that are marked.
abbrev pub marks : {C : Cache} → Config → ℕ → State C → State C
marks c zero st = st
marks c (suc n) st = marks c n (mark_state_dirty c st)

pub mark_count :
    {C : Cache} (c : Config) (st : State C)
    → c.persistent_state_file ≢ []
    → mark_state_dirty c st ≡ record st { state_dirty = add64 st.state_dirty 1 }
unfolding mark_state_dirty
mark_count c st on = rw (no_text_eq c.persistent_state_file [] on) refl

marks_count :
    {C : Cache} (c : Config) (n : ℕ) (st : State C)
    → c.persistent_state_file ≢ []
    → st.state_dirty < u64_mod
    → (marks c n st).state_dirty ≡ (st.state_dirty + n) % u64_mod
marks_count c zero st on fits = omega arith
marks_count c (suc n) st on fits =
    rw (marks, mark_count c st on)
      (marks_count c n (record st { state_dirty = add64 st.state_dirty 1 }) on (omega arith)
        ∙ omega arith)

-- With a state file, a save that succeeds leaves nothing unsaved exactly when no change was marked
-- while it ran, if fewer than 2^64 were; the number that is reported as unsaved is theirs, or 0
-- where the counter has wrapped around.
pub has_unsaved_state-marks :
    {C : Cache} (c : Config) (n : ℕ) (st : State C)
    → c.persistent_state_file ≢ []
    → st.state_dirty < u64_mod
    → n < u64_mod
    → let st' = (save_state_now true (marks c n) st).1 in
      ((has_unsaved_state st' ≡ false) ↔ (n ≡ 0))
      × (unsaved_state_changes st' ≡ (if ltb (st.state_dirty + n) u64_mod then n else 0))
unfolding save_state_now has_unsaved_state unsaved_state_changes
has_unsaved_state-marks c n st on fits few =
    rw (marks_count c n st on fits) ((ground arith, ground arith), ground arith)
