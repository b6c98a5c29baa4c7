-- ===== src/Persist/Atomic.antt =====
-- `atomicWriteStateFile` of internal/state/state.go, call by call: the state file is replaced by a
-- temporary file that is complete.
pub mod Crash
pub mod Step
use captcha_protect.Base.{
  Bool, true, false, not, List, [], ◌∷◌, ◌++◌, Option, none, some, Text, if◌then◌else◌,
}

-- The state file and the temporary file, each with its content where it exists.
pub record Disk : Type 0 where
  pub state_file : Option Text
  pub temporary : Option Text

-- What the calls of the system do to the disk; the mode of a file and whether it is open are left
-- out.
pub data Effect : Type 0 where
  create_temp : Effect
  write : Text → Effect
  rename : Effect
  remove : Effect

unfoldable pub perform : Effect → Disk → Disk
perform create_temp disk = record disk { temporary = some [] }
perform (write bytes) disk = elim disk.temporary [
  | none ↦ disk
  | some content ↦ record disk { temporary = some (content ++ bytes) }
]
perform rename disk = elim disk.temporary [
  | none ↦ disk
  | some content ↦ record { state_file = some content; temporary = none }
]
perform remove disk = record disk { temporary = none }

unfoldable pub perform_all : List Effect → Disk → Disk
perform_all [] disk = disk
perform_all (e ∷ es) disk = perform_all es (perform e disk)

-- Which calls succeed, the deferred removal of the temporary file included. The writer is buffered: a
-- write is a piece of the text as it leaves the buffer, with whether it succeeds; of one that fails,
-- some bytes may have been written.
pub record Calls : Type 0 where
  pub created : Bool
  pub writes : List (Text × Bool)
  pub chmodded : Bool
  pub closed : Bool
  pub renamed : Bool
  pub removed : Bool

-- `writeStateJSON` and `Flush`, up to the first write that fails.
unfoldable pub write_all : List (Text × Bool) → List Effect × Bool
write_all [] = ([], true)
write_all ((bytes, ok) ∷ writes) =
    let (effects, all) = write_all writes in
    if ok then (write bytes ∷ effects, all) else (write bytes ∷ [], false)

-- What the deferred `os.Remove` does, whose error nobody looks at.
unfoldable pub deferred : Calls → List Effect
deferred calls = if calls.removed then remove ∷ [] else []

-- The effects in their order, and whether the file was written. Wherever the temporary file was
-- created, its removal is deferred to the end.
unfoldable pub atomic_write_state_file : Calls → List Effect × Bool
atomic_write_state_file calls =
    let (effects, all) = write_all calls.writes in
    let given_up = create_temp ∷ (effects ++ deferred calls) in
    if not calls.created
    then ([], false)
    else if not all
    then (given_up, false)
    else if not calls.chmodded
    then (given_up, false)
    else if not calls.closed
    then (given_up, false)
    else if not calls.renamed
    then (given_up, false)
    else (create_temp ∷ (effects ++ (rename ∷ deferred calls)), true)
