-- ===== src/Tests/Storing/Locking.antt =====
-- Tests of the lock, with the theorems at concrete data.
use captcha_protect.Base.{
  inl, inr, ℕ, ◌*◌, ◌≡◌, refl, List, [], ◌∷◌, none, some, true, false, codes, arith, All,
}
use captcha_protect.Verify.{second}
use captcha_protect.Lock.{FileSystem, LockFile, Moment, lock, close}
use captcha_protect.Lock.Exclusion.{
  Call, lock_turned, unlocking, closing, perform_all, perform_all_held,
}
use captcha_protect.Lock.Release.{IsUndisturbed, close-lock, lock-stale_turn}

abbrev at_second : ℕ → Moment
at_second t = record {
  now = t * second;
  creates = true;
  writes = true;
  syncs = true;
  closes = true;
  partial = [];
  stats = true;
  stats_again = true;
  reads = true;
  removes = true;
  removes_guard = true;
  meanwhile = λ fs. fs;
  before_removal = λ fs. fs;
}

calm : (t : ℕ) → IsUndisturbed (at_second t)
calm t = record {
  created = refl;
  written = refl;
  synced = refl;
  closed = refl;
  seen = refl;
  seen_again = refl;
  lock_removed = refl;
  guard_removed = refl;
  alone = λ fs. refl;
  alone_then = λ fs. refl;
}

abbrev left_behind : LockFile
left_behind = record { owner = codes "7:1"; mod_time = 100 * second }

abbrev locked_files : FileSystem
locked_files = record { lock = some left_behind; cleanup = none }

abbrev no_files : FileSystem
no_files = record { lock = none; cleanup = none }

-- A process died while it had the guard.
abbrev guarded_files : FileSystem
guarded_files = record locked_files { cleanup = some (codes "6:1") }

abbrev intruders : List Call
intruders =
    record { operation = lock_turned; caller = codes "7:2"; moment = at_second 105 }
    ∷ record { operation = unlocking; caller = codes "7:2"; moment = at_second 106 }
    ∷ record { operation = lock_turned; caller = codes "7:2"; moment = at_second 5000 }
    ∷ []

perform_all_held_example :
    let (taken, fs') = perform_all intruders guarded_files in
    All (λ t. t ≡ false) taken × (fs' ≡ guarded_files)
perform_all_held_example = perform_all_held intruders guarded_files left_behind refl (
  ((λ e. ground arith), inl (omega arith)),
  (((λ e. ground arith), inl (omega arith)), (((λ e. ground arith), inr (codes "6:1", refl)), tt)),
)

-- The owner of a stale lock closes it; between the reading and the removal another takes it over.
abbrev takeover : FileSystem → FileSystem
takeover fs =
    (lock (codes "7:2") ((at_second 111, λ fs'. fs') ∷ (at_second 111, λ fs'. fs') ∷ []) fs).1

-- The other's new lock is removed, and a third takes the lock in the same second.
taken_from_another :
    let (closed, fs') =
      close (codes "7:1") (record (at_second 111) { before_removal = takeover }) locked_files in
    (closed ≡ true)
    × ((takeover locked_files).lock
        ≡ some (record { owner = codes "7:2"; mod_time = 111 * second }))
    × ((lock (codes "7:3") ((at_second 111, λ fs''. fs'') ∷ []) fs').0 ≡ true)
unfolding lock captcha_protect.Lock.lock_turn close captcha_protect.Lock.unlock
    captcha_protect.Base.text_eq captcha_protect.Lock.remove_lock
    captcha_protect.Lock.remove_stale_lock captcha_protect.Lock.is_recent
    captcha_protect.Lock.clean_up captcha_protect.Lock.write_lock_pid
    captcha_protect.Lock.remove_guarded captcha_protect.Lock.remove_guard
    captcha_protect.Lock.acquire
taken_from_another = (refl, refl, refl)

acquired_at_once : (lock (codes "7:2") ((at_second 1, λ fs. fs) ∷ []) no_files).0 ≡ true
unfolding lock captcha_protect.Lock.lock_turn captcha_protect.Lock.acquire
    captcha_protect.Lock.write_lock_pid
acquired_at_once = refl

abbrev just_acquired : LockFile
just_acquired = record { owner = codes "7:2"; mod_time = second }

acquired_then :
    (lock (codes "7:2") ((at_second 1, λ fs. fs) ∷ []) no_files).1.lock ≡ some just_acquired
unfolding lock captcha_protect.Lock.lock_turn captcha_protect.Lock.acquire
    captcha_protect.Lock.write_lock_pid
acquired_then = refl

-- Two others try the lock, and one of them closes it.
abbrev latecomers : List Call
latecomers =
    record { operation = lock_turned; caller = codes "7:3"; moment = at_second 5 }
    ∷ record { operation = lock_turned; caller = codes "7:4"; moment = at_second 11 }
    ∷ record { operation = closing; caller = codes "7:3"; moment = at_second 11 }
    ∷ []

close-lock_example :
    let fs' = (lock (codes "7:2") ((at_second 1, λ fs. fs) ∷ []) no_files).1 in
    let (_, fs'') = perform_all latecomers fs' in
    close (codes "7:2") (at_second 12) fs'' ≡ (true, record fs'' { lock = none })
close-lock_example =
    close-lock (codes "7:2") ((at_second 1, λ fs. fs) ∷ []) no_files just_acquired latecomers
      (at_second 12) acquired_at_once acquired_then
      (
        ((λ e. ground arith), inl (omega arith)),
        (((λ e. ground arith), inl (omega arith)), (((λ e. ground arith), inl (omega arith)), tt)),
      )
      refl refl

lock-stale_turn_example :
    lock (codes "7:2") ((at_second 111, λ fs. fs) ∷ (at_second 112, λ fs. fs) ∷ []) locked_files ≡ (
      true,
      record {
        lock = some (record { owner = codes "7:2"; mod_time = 112 * second });
        cleanup = none;
      },
    )
lock-stale_turn_example =
    lock-stale_turn (codes "7:2") locked_files left_behind (at_second 111) (at_second 112)
      (calm 111) (calm 112) refl refl (omega arith)

abbrev process : ℕ
process = 7

abbrev counter : ℕ
counter = 1
