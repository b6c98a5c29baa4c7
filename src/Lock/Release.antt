-- ===== src/Lock/Release.antt =====
-- A lock that is acquired is released, and one that is left behind is taken over.
use captcha_protect.Base.{
  ℕ, ◌+◌, ◌<◌, ◌≡◌, refl, Bool, true, List, [], ◌∷◌, none, some, Text, text_eq_refl, arith, ◌≢◌,
  ◌∙◌, sym, All, All-map,
}
use captcha_protect.Lock.{
  FileSystem, LockFile, Moment, Turn, acquired, lock_failed, again, stale_lock_age, is_recent,
  remove_guarded, remove_stale_lock, lock_turn, write_lock_pid, remove_lock, remove_guard, clean_up,
  acquire, removed, proceed, unlocked, lock, unlock, close,
}
use captcha_protect.Lock.Exclusion
use captcha_protect.Lock.Exclusion.{IsRespected, perform_all, perform_all_held}

-- The lock file is the owner's.
abbrev pub IsHeld : Text → FileSystem → Type 0
IsHeld owner fs = (t : ℕ) × (fs.lock ≡ some (record { owner = owner; mod_time = t }))

write_lock_pid_own :
    (owner : Text) (m : Moment) (gone : Bool)
    → (write_lock_pid owner m gone).0 ≡ true
    → (write_lock_pid owner m gone).1 ≡ some owner
unfolding write_lock_pid
write_lock_pid_own owner m gone h = ground arith

acquire_own :
    (owner : Text) (m : Moment) (fs : FileSystem)
    → (acquire owner m fs).0 ≡ acquired
    → (acquire owner m fs).1.lock ≡ some (record { owner = owner; mod_time = m.now })
unfolding acquire
acquire_own owner m fs h = let own = write_lock_pid_own owner m m.removes in grind arith

lock_turn_acquired :
    (owner : Text) (m : Moment) (fs : FileSystem)
    → (lock_turn owner m fs).0 ≡ acquired
    → (lock_turn owner m fs).1.lock ≡ some (record { owner = owner; mod_time = m.now })
unfolding lock_turn
lock_turn_acquired owner m fs h = let own = acquire_own owner m fs in grind arith

proceed-IsHeld :
    (owner : Text) (turn : Turn) (fs : FileSystem) (rest : Bool × FileSystem)
    → (turn ≡ acquired → IsHeld owner fs)
    → (rest.0 ≡ true → IsHeld owner rest.1)
    → (proceed turn fs rest).0 ≡ true
    → IsHeld owner (proceed turn fs rest).1
proceed-IsHeld owner acquired fs rest here later h = here refl
proceed-IsHeld owner lock_failed fs rest here later h = ground arith
proceed-IsHeld owner again fs rest here later h = later h

lock-IsHeld :
    (owner : Text) (turns : List (Moment × (FileSystem → FileSystem))) (fs : FileSystem)
    → (lock owner turns fs).0 ≡ true
    → IsHeld owner (lock owner turns fs).1
unfolding lock
lock-IsHeld owner [] fs h = ground arith
lock-IsHeld owner ((m, others) ∷ turns) fs h =
    let (turn, fs') = lock_turn owner m fs in
    proceed-IsHeld owner turn fs' (lock owner turns (others fs'))
      (λ taken. (m.now, lock_turn_acquired owner m fs taken)) (lock-IsHeld owner turns (others fs'))
      h

remove_lock_removed :
    (m : Moment) (fs : FileSystem)
    → m.removes ≡ true
    → remove_lock m fs ≡ (true, record fs { lock = none })
unfolding remove_lock
remove_lock_removed m fs removes = ground arith

unlock_own :
    (owner : Text) (m : Moment) (fs : FileSystem) (t : ℕ)
    → fs.lock ≡ some (record { owner = owner; mod_time = t })
    → m.reads ≡ true
    → m.removes ≡ true
    → unlock owner m fs ≡ (unlocked, record (m.before_removal fs) { lock = none })
unfolding unlock
unlock_own owner m fs t held reads removes =
    let own = text_eq_refl owner in
    let gone = remove_lock_removed m (m.before_removal fs) removes in grind arith

-- An owner calls `Lock`, while others act between its turns as they like, and the call succeeds. Then
-- others than it call for turns of `Lock`, `Unlock` and `Close`, in whatever number and order, each
-- while its lock file is at most ten seconds old, or the guard is there. A call of `Close` that follows
-- leaves no lock file, if it can be read and removed: it is removed even if another has taken it over
-- between its reading and its removal.
pub close-lock :
    (owner : Text) (turns : List (Moment × (FileSystem → FileSystem))) (fs : FileSystem)
    (l : LockFile) (calls : List Exclusion.Call) (m : Moment)
    → (lock owner turns fs).0 ≡ true
    → (lock owner turns fs).1.lock ≡ some l
    → All
        (λ call. (call.caller ≢ owner) × IsRespected (lock owner turns fs).1 l call.moment.now)
        calls
    → m.reads ≡ true
    → m.removes ≡ true
    → let fs' = (lock owner turns fs).1 in
      let (_, fs'') = perform_all calls fs' in
      close owner m fs'' ≡ (true, record (m.before_removal fs'') { lock = none })
unfolding close
close-lock owner turns fs l calls m locked there others reads removes =
    let fs' = (lock owner turns fs).1 in
    let (t, held) = lock-IsHeld owner turns fs locked in
    let own : owner ≡ l.owner = cc in
    let (_, kept) = perform_all_held calls fs' l there (
      All-map (λ (call : Exclusion.Call). (call.caller ≢ owner) × IsRespected fs' l call.moment.now)
        (λ call. (call.caller ≢ l.owner) × IsRespected fs' l call.moment.now) calls
        (λ call h. (λ same. h.0 (same ∙ sym own), h.1)) others) in
    rw kept (rw (unlock_own owner m fs' t held reads removes) refl)

-- Files can be created, written, looked at and removed, and nobody else acts within the call.
pub record IsUndisturbed (m : Moment) : Type 0 where
  pub created : m.creates ≡ true
  pub written : m.writes ≡ true
  pub synced : m.syncs ≡ true
  pub closed : m.closes ≡ true
  pub seen : m.stats ≡ true
  pub seen_again : m.stats_again ≡ true
  pub lock_removed : m.removes ≡ true
  pub guard_removed : m.removes_guard ≡ true
  pub alone : (fs : FileSystem) → m.meanwhile fs ≡ fs
  pub alone_then : (fs : FileSystem) → m.before_removal fs ≡ fs

write_lock_pid_written :
    (owner : Text) (m : Moment) (gone : Bool)
    → IsUndisturbed m
    → write_lock_pid owner m gone ≡ (true, some owner)
unfolding write_lock_pid
write_lock_pid_written owner m gone calm = rw (calm.written, calm.synced, calm.closed) refl

remove_guarded_removed :
    (m : Moment) (fs : FileSystem) (l : LockFile)
    → IsUndisturbed m
    → fs.lock ≡ some l
    → l.mod_time + stale_lock_age < m.now
    → remove_guarded m fs ≡ (removed true, record fs { lock = none })
unfolding remove_guarded is_recent
remove_guarded_removed m fs l calm there old =
    let again = calm.seen_again in
    let gone = remove_lock_removed m fs calm.lock_removed in
    let same = calm.alone_then fs in grind arith

clean_up_removed :
    (owner : Text) (m : Moment) (fs : FileSystem) (l : LockFile)
    → IsUndisturbed m
    → fs.lock ≡ some l
    → l.mod_time + stale_lock_age < m.now
    → clean_up owner m fs ≡ (removed true, record { lock = none; cleanup = none })
unfolding clean_up remove_guard
clean_up_removed owner m fs l calm there old =
    let fs' = record fs { cleanup = some owner } in
    rw (write_lock_pid_written owner m m.removes_guard calm, calm.alone fs')
      (rw (remove_guarded_removed m fs' l calm there old, calm.guard_removed) refl)

stale_turn :
    (owner : Text) (m : Moment) (fs : FileSystem) (l : LockFile)
    → IsUndisturbed m
    → fs.lock ≡ some l
    → fs.cleanup ≡ none
    → l.mod_time + stale_lock_age < m.now
    → lock_turn owner m fs ≡ (again, record { lock = none; cleanup = none })
unfolding lock_turn remove_stale_lock is_recent
stale_turn owner m fs l calm there free old =
    let creates = calm.created in
    let stats = calm.seen in
    let cleaned = clean_up_removed owner m fs l calm there old in grind arith

free_turn :
    (owner : Text) (m : Moment) (fs : FileSystem)
    → IsUndisturbed m
    → fs.lock ≡ none
    → lock owner ((m, λ fs'. fs') ∷ []) fs
      ≡ (true, record fs { lock = some (record { owner = owner; mod_time = m.now }) })
unfolding lock lock_turn acquire
free_turn owner m fs calm free =
    let written = write_lock_pid_written owner m m.removes calm in
    let creates = calm.created in grind arith

-- A lock file that is more than ten seconds old is taken over on the next turn, if nobody else
-- acts, no guard is in the way, and files can be created, written, looked at and removed.
pub lock-stale_turn :
    (owner : Text) (fs : FileSystem) (l : LockFile) (first second : Moment)
    → IsUndisturbed first
    → IsUndisturbed second
    → fs.lock ≡ some l
    → fs.cleanup ≡ none
    → l.mod_time + stale_lock_age < first.now
    → lock owner ((first, λ fs'. fs') ∷ (second, λ fs'. fs') ∷ []) fs ≡ (
      true,
      record { lock = some (record { owner = owner; mod_time = second.now }); cleanup = none },
    )
unfolding lock
lock-stale_turn owner fs l first second calm calm' there free old =
    rw (stale_turn owner first fs l calm there free old) (free_turn owner second _ calm' refl)
