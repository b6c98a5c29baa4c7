-- ===== src/Persist/Atomic/Crash.antt =====
-- What a crash can leave of the state file.
use mathlib.Core.List.{append_assoc, append-nil}
use captcha_protect.Base.{
  ◌≡◌, ◌⊎◌, refl, ◌∙◌, inl, inr, Bool, true, false, ◌&&◌, List, [], ◌∷◌, ◌++◌, Option, some, Text,
  arith, Bool-cases, All,
}
use captcha_protect.Persist.Atomic.{
  Disk, Effect, create_temp, write, rename, remove, perform, perform_all, Calls, write_all,
  deferred, atomic_write_state_file,
}

-- The pieces of a text together.
abbrev pub joined : List (Text × Bool) → Text
joined [] = []
joined ((bytes, ok) ∷ writes) = bytes ++ joined writes

-- An effect that leaves the state file alone.
abbrev pub IsQuiet : Effect → Type 0
IsQuiet create_temp = Unit
IsQuiet (write bytes) = Unit
IsQuiet rename = ⊥
IsQuiet remove = Unit

perform_quiet :
    (e : Effect) (disk : Disk) → IsQuiet e → (perform e disk).state_file ≡ disk.state_file
unfolding perform
perform_quiet create_temp disk h = refl
perform_quiet (write bytes) disk h = ground arith
perform_quiet rename disk h = absurd h
perform_quiet remove disk h = refl

pub write_all-IsQuiet : (writes : List (Text × Bool)) → All IsQuiet (write_all writes).0
unfolding write_all
write_all-IsQuiet [] = tt
write_all-IsQuiet ((bytes, true) ∷ writes) = (tt, write_all-IsQuiet writes)
write_all-IsQuiet ((bytes, false) ∷ writes) = (tt, tt)

pub deferred-IsQuiet : (calls : Calls) → All IsQuiet (deferred calls)
unfolding deferred
deferred-IsQuiet calls = elim (Bool-cases calls.removed) [ inl e ↦ rw e (tt, tt) | inr e ↦ rw e tt ]

pub perform_all-append :
    (es es' : List Effect) (disk : Disk)
    → perform_all (es ++ es') disk ≡ perform_all es' (perform_all es disk)
unfolding perform_all
perform_all-append [] es' disk = refl
perform_all-append (e ∷ es) es' disk = perform_all-append es es' (perform e disk)

pub perform_all_quiet :
    (es : List Effect) (disk : Disk)
    → All IsQuiet es
    → (perform_all es disk).state_file ≡ disk.state_file
unfolding perform_all
perform_all_quiet [] disk h = refl
perform_all_quiet (e ∷ es) disk (h, hs) =
    perform_all_quiet es (perform e disk) hs ∙ perform_quiet e disk h

-- When every write succeeds the temporary file holds the whole text.
pub perform_all-write_all :
    (writes : List (Text × Bool)) (disk : Disk) (content : Text)
    → disk.temporary ≡ some content
    → (write_all writes).1 ≡ true
    → (perform_all (write_all writes).0 disk).temporary ≡ some (content ++ joined writes)
unfolding write_all perform_all perform
perform_all-write_all [] disk content h all = rw append-nil h
perform_all-write_all ((bytes, true) ∷ writes) disk content h all =
    rw (h, ← append_assoc)
      (perform_all-write_all writes (record disk { temporary = some (content ++ bytes) })
        (content ++ bytes) refl all)
perform_all-write_all ((bytes, false) ∷ writes) disk content h all = cc

module _ (old : Option Text) (content : Text) where
  -- The state file is as it was, or complete.
  abbrev pub IsWhole : Disk → Type 0
  IsWhole disk = (disk.state_file ≡ old) ⊎ (disk.state_file ≡ some content)

  -- So it is at every moment of a run.
  abbrev AlwaysWhole : List Effect → Disk → Type 0
  AlwaysWhole [] disk = IsWhole disk
  AlwaysWhole (e ∷ es) disk = IsWhole disk × AlwaysWhole es (perform e disk)

  stopped_run :
      (before after : List Effect) (disk : Disk)
      → AlwaysWhole (before ++ after) disk
      → IsWhole (perform_all before disk)
  unfolding perform_all
  stopped_run [] [] disk h = h
  stopped_run [] (e ∷ after) disk (h, hs) = h
  stopped_run (e ∷ before) after disk (h, hs) = stopped_run before after (perform e disk) hs

  quiet_run :
      (es tail : List Effect) (disk : Disk)
      → All IsQuiet es
      → disk.state_file ≡ old
      → ((disk' : Disk)
          → perform_all es disk ≡ disk'
          → disk'.state_file ≡ old
          → AlwaysWhole tail disk')
      → AlwaysWhole (es ++ tail) disk
  unfolding perform_all
  quiet_run [] tail disk q kept next = next disk refl kept
  quiet_run (e ∷ es) tail disk (q, qs) kept next =
      (inl kept, quiet_run es tail (perform e disk) qs (perform_quiet e disk q ∙ kept) next)

  -- A tail of quiet effects leaves whatever is whole.
  quiet_tail :
      (es : List Effect) (disk : Disk) → All IsQuiet es → IsWhole disk → AlwaysWhole es disk
  quiet_tail [] disk q whole = whole
  quiet_tail (e ∷ es) disk (q, qs) whole =
      (whole, quiet_tail es (perform e disk) qs (rw (perform_quiet e disk q) whole))

  given_up_whole :
      (calls : Calls) (disk : Disk)
      → disk.state_file ≡ old
      → AlwaysWhole (create_temp ∷ ((write_all calls.writes).0 ++ deferred calls)) disk
  unfolding perform
  given_up_whole calls disk same = (
    inl same,
    quiet_run (write_all calls.writes).0 (deferred calls) (perform create_temp disk)
        (write_all-IsQuiet calls.writes) same
        (λ disk' _ kept. quiet_tail (deferred calls) disk' (deferred-IsQuiet calls) (inl kept)),
  )

  renamed_whole :
      (calls : Calls) (disk : Disk)
      → disk.state_file ≡ old
      → disk.temporary ≡ some content
      → AlwaysWhole (rename ∷ deferred calls) disk
  unfolding perform
  renamed_whole calls disk same full =
      (inl same, quiet_tail (deferred calls) _ (deferred-IsQuiet calls) (rw full (inr refl)))

complete_whole :
    (calls : Calls) (disk : Disk)
    → (write_all calls.writes).1 ≡ true
    → AlwaysWhole disk.state_file
        (joined calls.writes)
        (create_temp ∷ ((write_all calls.writes).0 ++ (rename ∷ deferred calls)))
        disk
unfolding perform
complete_whole calls disk all = (
  inl refl,
  quiet_run disk.state_file (joined calls.writes) (write_all calls.writes).0
      (rename ∷ deferred calls) (perform create_temp disk) (write_all-IsQuiet calls.writes) refl
      (λ disk' run kept.
        let full = perform_all-write_all calls.writes (perform create_temp disk) [] refl all in
        renamed_whole disk.state_file (joined calls.writes) calls disk' kept (rw run at full)),
)

-- Whether every call that a save looks at succeeds.
abbrev pub all_written : List (Text × Bool) → Bool
all_written [] = true
all_written ((bytes, ok) ∷ writes) = ok && all_written writes

abbrev pub succeeds : Calls → Bool
succeeds calls =
    calls.created
    && (all_written calls.writes && (calls.chmodded && (calls.closed && calls.renamed)))

write_all_written : (writes : List (Text × Bool)) → (write_all writes).1 ≡ all_written writes
unfolding write_all
write_all_written [] = refl
write_all_written ((bytes, true) ∷ writes) = write_all_written writes
write_all_written ((bytes, false) ∷ writes) = refl

-- The ways in which a save ends: without a temporary file, or once it is there.
pub data Ending (calls : Calls) : Type 0 where
  not_created :
      (succeeds calls ≡ false) → (atomic_write_state_file calls ≡ ([], false)) → Ending calls
  given_up :
      (succeeds calls ≡ false)
      → (atomic_write_state_file calls
          ≡ (create_temp ∷ ((write_all calls.writes).0 ++ deferred calls), false))
      → Ending calls
  complete :
      (succeeds calls ≡ true)
      → ((write_all calls.writes).1 ≡ true)
      → (atomic_write_state_file calls
          ≡ (create_temp ∷ ((write_all calls.writes).0 ++ (rename ∷ deferred calls)), true))
      → Ending calls

pub ending : (calls : Calls) → Ending calls
unfolding atomic_write_state_file
ending calls =
    let written = write_all_written calls.writes in
    elim (Bool-cases calls.created) [
      | inr e ↦ not_created (rw e refl) (rw e refl)
      | inl e ↦ elim (Bool-cases (write_all calls.writes).1) [
        | inr f ↦ given_up (rw (e, ← written, f) refl) (rw (e, f) refl)
        | inl f ↦ elim (Bool-cases (calls.chmodded && (calls.closed && calls.renamed))) [
          | inr g ↦ given_up (rw (e, ← written, f, g) refl) (rw (e, f) (ground arith))
          | inl g ↦ complete (rw (e, ← written, f, g) refl) f (rw (e, f) (ground arith))
        ]
      ]
    ]

always_whole :
    (calls : Calls) (disk : Disk)
    → AlwaysWhole disk.state_file (joined calls.writes) (atomic_write_state_file calls).0 disk
always_whole calls disk = elim (ending calls) [
  | not_created _ e ↦ rw e (inl refl)
  | given_up _ e ↦ rw e (given_up_whole disk.state_file (joined calls.writes) calls disk refl)
  | complete _ all e ↦ rw e (complete_whole calls disk all)
]

-- Wherever a save is stopped, by a call that fails or by a crash between two of them, the state
-- file is as it was before or holds the whole new text.
pub atomic_write_state_file-IsWhole :
    (calls : Calls) (disk : Disk) (before after : List Effect)
    → before ++ after ≡ (atomic_write_state_file calls).0
    → IsWhole disk.state_file (joined calls.writes) (perform_all before disk)
atomic_write_state_file-IsWhole calls disk before after e =
    stopped_run disk.state_file (joined calls.writes) before after disk
      (rw e (always_whole calls disk))
