-- ===== src/Saving.antt =====
-- When the verified visitors are written to the state file: the two counters of main.go with
-- `hasUnsavedState`, `unsavedStateChanges`, `currentStateDirty`, `markStateSaved`, `saveStateNow`
-- and the loop of `saveState`.
pub mod Marks
pub mod Jitter
pub mod Loop
pub mod Trace
use captcha_protect.Base.{
  ℕ, ◌-◌, ◌*◌, Bool, true, false, not, ◌&&◌, Option, none, some, if◌then◌else◌, ◌==◌, ltb,
}
use captcha_protect.Cache.{Cache}
use captcha_protect.Middleware.{State}
use captcha_protect.Verify.{second}

abbrev pub state_save_interval : ℕ
state_save_interval = 60 * second

unfoldable pub has_unsaved_state : {C : Cache} → State C → Bool
has_unsaved_state st = not (st.state_dirty == st.state_saved_dirty)

unfoldable pub unsaved_state_changes : {C : Cache} → State C → ℕ
unsaved_state_changes st =
    if ltb st.state_dirty st.state_saved_dirty then 0 else st.state_dirty - st.state_saved_dirty

abbrev pub current_state_dirty : {C : Cache} → State C → ℕ
current_state_dirty st = st.state_dirty

abbrev pub mark_state_saved : {C : Cache} → ℕ → State C → State C
mark_state_saved dirty st = record st { state_saved_dirty = dirty }

-- `saveStateNow`: whether the file was written, and what requests do to the state meanwhile.
unfoldable pub save_state_now : {C : Cache} → Bool → (State C → State C) → State C → Bool × State C
save_state_now written meanwhile st =
    let dirty_at_start = current_state_dirty st in
    let st' = meanwhile st in
    if not written then (false, st') else (true, mark_state_saved dirty_at_start st')

-- Whether the last save, if there was one, is more recent than the interval.
abbrev pub saved_recently : ℕ → ℕ → Option ℕ → Bool
saved_recently interval now none = false
saved_recently interval now (some t) = ltb (now - t) interval

-- A turn of the loop, from the time of the last save; the interval includes the jitter. With whether
-- the state file is written in it.
unfoldable pub save_tick :
    {C : Cache}
    → ℕ
    → ℕ
    → Bool
    → (State C → State C)
    → Option ℕ × State C
    → Option ℕ × Bool × State C
save_tick interval now written meanwhile (last_save, st) =
    if not (has_unsaved_state st)
    then (last_save, false, st)
    else if saved_recently interval now last_save
    then (last_save, false, st)
    else (let (saved, st') = save_state_now written meanwhile st in
        if saved then (some now, saved, st') else (last_save, saved, st'))

-- The last turn, when the context is done.
unfoldable pub save_at_shutdown : {C : Cache} → Bool → (State C → State C) → State C → State C
save_at_shutdown written meanwhile st =
    if has_unsaved_state st then (save_state_now written meanwhile st).1 else st
