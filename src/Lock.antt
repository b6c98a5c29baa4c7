-- ===== src/Lock.antt =====
-- The lock beside the state file: internal/state/lock.go. The file system is what it holds of the
-- lock file and of the guard `.cleanup`; a call says which of its operations succeed.
pub mod Exclusion
pub mod Owners
pub mod Release
use captcha_protect.Base.{
  ℕ, ◌+◌, ◌-◌, ◌*◌, Bool, true, false, not, ◌&&◌, ◌||◌, List, [], ◌∷◌, ◌++◌, Option, none, some,
  Text, text_eq, add64, if◌then◌else◌, leb,
}
use captcha_protect.Persist.{format_uint}
use captcha_protect.Verify.{second}

abbrev pub stale_lock_age : ℕ
stale_lock_age = 10 * second

-- `newLockOwner`, from the process and the counter; with the counter after it.
unfoldable pub new_lock_owner : ℕ → ℕ → Text × ℕ
new_lock_owner pid counter =
    let next = add64 counter 1 in (format_uint pid ++ (b':' ∷ format_uint next), next)

pub record FileLock : Type 0 where
  pub lock_path : Text
  pub pid : ℕ
  pub owner : Text

-- `NewFileLock`, from the process and the counter of owners; with the counter after it.
unfoldable pub new_file_lock : Text → ℕ → ℕ → FileLock × ℕ
new_file_lock path pid counter =
    let (owner, counter') = new_lock_owner pid counter in
    (record { lock_path = path; pid = pid; owner = owner }, counter')

-- A lock file: what is written in it, and when.
pub record LockFile : Type 0 where
  pub owner : Text
  pub mod_time : ℕ

pub record FileSystem : Type 0 where
  pub lock : Option LockFile
  pub cleanup : Option Text

-- What the operating system does for a call: the time; whether it creates a file that is not there,
-- writes, syncs and closes it, and what a write that fails has written; whether the two looks at the
-- lock file, its reading, its removal and the removal of the guard succeed; and what other processes
-- do after the creation of the guard, and between the last look at the lock file and its removal.
pub record Moment : Type 0 where
  pub now : ℕ
  pub creates : Bool
  pub writes : Bool
  pub syncs : Bool
  pub closes : Bool
  pub partial : Text
  pub stats : Bool
  pub stats_again : Bool
  pub reads : Bool
  pub removes : Bool
  pub removes_guard : Bool
  pub meanwhile : FileSystem → FileSystem
  pub before_removal : FileSystem → FileSystem

-- `writeLockPID`: whether it succeeds, and what is in the file then, if it is left. The file is closed
-- in any case, and removed after an error.
unfoldable pub write_lock_pid : Text → Moment → Bool → Bool × Option Text
write_lock_pid owner m removed =
    let written = if m.writes then owner else m.partial in
    if m.writes && m.syncs && m.closes
    then (true, some written)
    else (false, if removed then none else some written)

-- `time.Since(modTime) <= staleLockAge`
unfoldable pub is_recent : ℕ → LockFile → Bool
is_recent now l = leb now (l.mod_time + stale_lock_age)

-- What `removeStaleLock` returns: an error, or whether a stale lock was removed.
pub data Removal : Type 0 where
  removal_failed : Removal
  removed : Bool → Removal

-- `os.Remove` of the lock file: whether it succeeds, or the file is not there.
unfoldable pub remove_lock : Moment → FileSystem → Bool × FileSystem
remove_lock m fs = elim fs.lock [
  | none ↦ (true, fs)
  | some l ↦ if m.removes then (true, record fs { lock = none }) else (false, fs)
]

-- The second look and the removal, under the guard.
unfoldable pub remove_guarded : Moment → FileSystem → Removal × FileSystem
remove_guarded m fs = elim fs.lock [
  | none ↦ (removed true, fs)
  | some l ↦
      if not m.stats_again || is_recent m.now l
      then (removed false, fs)
      else let (gone, fs') = remove_lock m (m.before_removal fs) in
        (if gone then removed true else removal_failed, fs')
]

-- The deferred removal of the guard.
unfoldable pub remove_guard : Moment → FileSystem → FileSystem
remove_guard m fs = if m.removes_guard then record fs { cleanup = none } else fs

-- What follows the creation of the guard.
unfoldable pub clean_up : Text → Moment → FileSystem → Removal × FileSystem
clean_up owner m fs =
    let (written, left) = write_lock_pid owner m m.removes_guard in
    if not written
    then (removal_failed, record fs { cleanup = left })
    else let (removal, fs') = remove_guarded m (m.meanwhile (record fs { cleanup = left })) in
      (removal, remove_guard m fs')

unfoldable pub remove_stale_lock : Text → Moment → FileSystem → Removal × FileSystem
remove_stale_lock owner m fs = elim fs.lock [
  | none ↦ (removed false, fs)
  | some l ↦ if not m.stats || is_recent m.now l then (removed false, fs) else elim fs.cleanup [
    | some guard ↦ (removed false, fs)
    | none ↦ if not m.creates then (removed false, fs) else clean_up owner m fs
  ]
]

-- A turn of the loop of `Lock`: the lock is held, the call fails, or it goes on.
pub data Turn : Type 0 where
  acquired lock_failed again : Turn

abbrev pub turn_of : Removal → Turn
turn_of removal_failed = lock_failed
turn_of (removed stale) = again

-- What follows the creation of the lock file.
unfoldable pub acquire : Text → Moment → FileSystem → Turn × FileSystem
acquire owner m fs =
    let (written, left) = write_lock_pid owner m m.removes in
    (
      if written then acquired else lock_failed,
      record fs {
        lock = elim left [
          | none ↦ none
          | some text ↦ some (record { owner = text; mod_time = m.now })
        ];
      },
    )

unfoldable pub lock_turn : Text → Moment → FileSystem → Turn × FileSystem
lock_turn owner m fs = elim fs.lock [
  | none ↦ if not m.creates then (again, fs) else acquire owner m fs
  | some l ↦ let (removal, fs') = remove_stale_lock owner m fs in (turn_of removal, fs')
]

abbrev pub proceed : Turn → FileSystem → Bool × FileSystem → Bool × FileSystem
proceed acquired fs rest = (true, fs)
proceed lock_failed fs rest = (false, fs)
proceed again fs rest = rest

-- `Lock`, over the turns that come before its timer; other processes act between two turns as
-- they like.
unfoldable pub lock :
    Text → List (Moment × (FileSystem → FileSystem)) → FileSystem → Bool × FileSystem
lock owner [] fs = (false, fs)
lock owner ((m, others) ∷ turns) fs =
    let (turn, fs') = lock_turn owner m fs in proceed turn fs' (lock owner turns (others fs'))

pub data Unlocking : Type 0 where
  unlocked held_elsewhere unlock_failed : Unlocking

unfoldable pub unlock : Text → Moment → FileSystem → Unlocking × FileSystem
unlock owner m fs = elim fs.lock [
  | none ↦ (unlocked, fs)
  | some l ↦
      if not m.reads
      then (unlock_failed, fs)
      else if not (text_eq l.owner owner)
      then (held_elsewhere, fs)
      else let (gone, fs') = remove_lock m (m.before_removal fs) in
        (if gone then unlocked else unlock_failed, fs')
]

-- `Close`, which takes a lock that is held by another for closed: whether it returns without an error.
unfoldable pub close : Text → Moment → FileSystem → Bool × FileSystem
close owner m fs =
    let (result, fs') = unlock owner m fs in
    (elim result [ unlocked ↦ true | held_elsewhere ↦ true | unlock_failed ↦ false ], fs')
