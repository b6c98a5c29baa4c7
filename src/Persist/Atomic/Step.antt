-- ===== src/Persist/Atomic/Step.antt =====
-- A save call by call against a save in one step.
use captcha_protect.Base.{
  ◌≡◌, ◌⊎◌, refl, inl, inr, ◌∙◌, true, false, [], ◌∷◌, Option, none, some, Text, arith, Bool-cases,
  if◌then◌else◌, ℕ,
}
use captcha_protect.Cache.{Cache}
use captcha_protect.Persist.{write_state_json, save_state_to_file}
use captcha_protect.Persist.Atomic.{
  Disk, rename, perform, perform_all, Calls, write_all, deferred, atomic_write_state_file,
}
use captcha_protect.Persist.Atomic.Crash.{
  joined, succeeds, not_created, given_up, complete, ending, perform_all_quiet, write_all-IsQuiet,
  deferred-IsQuiet, perform_all-append, perform_all-write_all,
}

-- After the rename the deferred removal finds no temporary file.
renamed_last :
    (calls : Calls) (disk : Disk) (content : Text)
    → disk.temporary ≡ some content
    → perform_all (rename ∷ deferred calls) disk
      ≡ record { state_file = some content; temporary = none }
unfolding perform_all perform deferred
renamed_last calls disk content full = elim (Bool-cases calls.removed) [
  | inl e ↦ rw (e, full) refl
  | inr e ↦ rw (e, full) refl
]

-- What a save that is given up leaves of the temporary file.
given_up_temporary :
    (calls : Calls) (disk : Disk)
    → ((perform_all (deferred calls) disk).temporary ≡ none) ⊎ (calls.removed ≡ false)
unfolding perform_all perform deferred
given_up_temporary calls disk = elim (Bool-cases calls.removed) [
  | inl e ↦ inl (rw e refl)
  | inr e ↦ inr e
]

-- How a save ends, by whether its calls succeed.
abbrev IsEnded : Calls → Option Text → Type 0
IsEnded calls old =
    let (effects, ok) = atomic_write_state_file calls in
    let disk = perform_all effects (record { state_file = old; temporary = none }) in
    (ok ≡ succeeds calls)
    × (disk.state_file ≡ (if succeeds calls then some (joined calls.writes) else old))
    × ((disk.temporary ≡ none) ⊎ ((ok ≡ false) × (calls.removed ≡ false)))

ended : (calls : Calls) (old : Option Text) → IsEnded calls old
unfolding perform_all perform
ended calls old = elim (ending calls) [
  | not_created fails e ↦ rw (e, fails) (refl, refl, inl refl)
  | given_up fails e ↦
      (let start : Disk = record { state_file = old; temporary = some [] } in
        let written = perform_all (write_all calls.writes).0 start in
        let kept =
          perform_all_quiet (deferred calls) written (deferred-IsQuiet calls)
          ∙ perform_all_quiet (write_all calls.writes).0 start (write_all-IsQuiet calls.writes) in
        let left = given_up_temporary calls written in
        rw (e, fails, perform_all-append (write_all calls.writes).0 (deferred calls) start)
          (refl, kept, elim left [ inl gone ↦ inl gone | inr stays ↦ inr (refl, stays) ]))
  | complete passes all e ↦
      (let start : Disk = record { state_file = old; temporary = some [] } in
        let full = perform_all-write_all calls.writes start [] refl all in
        rw
          (
            e,
            passes,
            perform_all-append (write_all calls.writes).0 (rename ∷ deferred calls) start,
            renamed_last calls (perform_all (write_all calls.writes).0 start) (joined calls.writes)
                full,
          )
          (refl, refl, inl refl))
]

-- A save call by call does what a save in one step does. If the pieces make up the text of the state,
-- it succeeds exactly when each of its calls does, the deferred removal aside, and then leaves the same
-- state file as a step that succeeds, and otherwise as one that fails. There is no temporary file at
-- its end, unless it fails and the removal of the temporary file fails too.
pub save_state_to_file-atomic :
    (C : Cache) (verified_cache : C.State) (now : ℕ) (old : Option Text) (calls : Calls)
    → joined calls.writes ≡ write_state_json (C.items verified_cache now)
    → let (effects, ok) = atomic_write_state_file calls in
      let disk = perform_all effects (record { state_file = old; temporary = none }) in
      (ok ≡ succeeds calls)
      × (save_state_to_file C true (succeeds calls) verified_cache now old ≡ (ok, disk.state_file))
      × ((disk.temporary ≡ none) ⊎ ((ok ≡ false) × (calls.removed ≡ false)))
unfolding save_state_to_file
save_state_to_file-atomic C verified_cache now old calls text =
    let (result, kept, temporary) = ended calls old in
    (result, rw (kept, result, text) (ground arith), temporary)
