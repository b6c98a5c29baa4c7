-- ===== src/Lock/Exclusion.antt =====
-- A lock that is held is not taken.
use captcha_protect.Base.{
  ℕ, ◌⊎◌, inl, inr, ◌+◌, ◌≤◌, ◌≡◌, ◌≢◌, refl, sym, Bool, true, false, List, [], ◌∷◌, some, Text,
  arith, All, no_text_eq,
}
use captcha_protect.Lock.{
  FileSystem, LockFile, Moment, stale_lock_age, lock_turn, acquired, lock_failed, again, unlock,
  close, is_recent, remove_stale_lock, removed,
}

-- What a process does to the lock: a turn of `Lock`, `Unlock` or `Close`.
pub data Operation : Type 0 where
  lock_turned unlocking closing : Operation

pub record Call : Type 0 where
  pub operation : Operation
  pub caller : Text
  pub moment : Moment

-- Whether a call acquires the lock, and the file system after it.
unfoldable pub perform : Operation → Text → Moment → FileSystem → Bool × FileSystem
perform lock_turned caller m fs =
    let (turn, fs') = lock_turn caller m fs in
    (elim turn [ acquired ↦ true | lock_failed ↦ false | again ↦ false ], fs')
perform unlocking caller m fs = (false, (unlock caller m fs).1)
perform closing caller m fs = (false, (close caller m fs).1)

unfoldable pub perform_all : List Call → FileSystem → List Bool × FileSystem
perform_all [] fs = ([], fs)
perform_all (call ∷ calls) fs =
    let (taken, fs') = perform call.operation call.caller call.moment fs in
    let (others, fs'') = perform_all calls fs' in (taken ∷ others, fs'')

-- The lock file is left alone by others: it is at most ten seconds old at the time, or some process
-- has the guard.
abbrev pub IsRespected : FileSystem → LockFile → ℕ → Type 0
IsRespected fs l now =
    (now ≤ l.mod_time + stale_lock_age) ⊎ ((guard : Text) × (fs.cleanup ≡ some guard))

remove_stale_lock_kept :
    (caller : Text) (m : Moment) (fs : FileSystem) (l : LockFile)
    → fs.lock ≡ some l
    → IsRespected fs l m.now
    → remove_stale_lock caller m fs ≡ (removed false, fs)
unfolding remove_stale_lock is_recent
remove_stale_lock_kept caller m fs l held (inl soon) = rw held (ground arith)
remove_stale_lock_kept caller m fs l held (inr (guard, there)) = rw (held, there) (ground arith)

unlock_other :
    (caller : Text) (m : Moment) (fs : FileSystem) (l : LockFile)
    → fs.lock ≡ some l
    → caller ≢ l.owner
    → (unlock caller m fs).1 ≡ fs
unfolding unlock
unlock_other caller m fs l held other =
    let foreign = no_text_eq l.owner caller (λ same. other (sym same)) in rw held (ground arith)

lock_turn_kept :
    (caller : Text) (m : Moment) (fs : FileSystem) (l : LockFile)
    → fs.lock ≡ some l
    → IsRespected fs l m.now
    → lock_turn caller m fs ≡ (again, fs)
unfolding lock_turn
lock_turn_kept caller m fs l held respected =
    let kept = remove_stale_lock_kept caller m fs l held respected in grind arith

perform_kept :
    (operation : Operation) (caller : Text) (m : Moment) (fs : FileSystem) (l : LockFile)
    → fs.lock ≡ some l
    → caller ≢ l.owner
    → IsRespected fs l m.now
    → perform operation caller m fs ≡ (false, fs)
unfolding perform close
perform_kept lock_turned caller m fs l held other respected =
    rw (lock_turn_kept caller m fs l held respected) refl
perform_kept unlocking caller m fs l held other respected =
    rw (unlock_other caller m fs l held other) refl
perform_kept closing caller m fs l held other respected =
    rw (unlock_other caller m fs l held other) refl

-- While a lock file is at most ten seconds old, or the guard is there, no calls of others than its
-- owner, in whatever number and order, and whatever fails in them, take the lock or change a file.
pub perform_all_held :
    (calls : List Call) (fs : FileSystem) (l : LockFile)
    → fs.lock ≡ some l
    → All (λ call. (call.caller ≢ l.owner) × IsRespected fs l call.moment.now) calls
    → let (taken, fs') = perform_all calls fs in All (λ t. t ≡ false) taken × (fs' ≡ fs)
unfolding perform_all
perform_all_held [] fs l held others = (tt, refl)
perform_all_held (call ∷ calls) fs l held ((other, respected), others) =
    rw (perform_kept call.operation call.caller call.moment fs l held other respected)
      (let (kept, same) = perform_all_held calls fs l held others in ((refl, kept), same))
