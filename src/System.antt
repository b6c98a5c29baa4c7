-- ===== src/System.antt =====
-- The middleware as a whole, over its lifetimes: the visits, what goes on in the background, the saves
-- and the starts from the state file, one after another. A start without a save before it is what
-- follows a crash.
pub mod Regular
pub mod Kept
pub mod Verified
pub mod History
pub mod Staying
pub mod Lasting
pub mod Liveness
use captcha_protect.Base.{ℕ, suc, ◌≤◌, ◌⊎◌, Bool, List, [], ◌∷◌, Option, none, Text, All, AllPairs}
use captcha_protect.Cache.{Cache}
use captcha_protect.Snapshot.{CacheEntry}
use captcha_protect.Middleware.{Setup, State}
use captcha_protect.Persist.{save_state_to_file}
use captcha_protect.Startup.{new_state}
use captcha_protect.Serve.Visits.{Visit, serve, Solves}

-- What is in memory, and the state file.
pub record Machine (C : Cache) : Type 0 where
  pub st : State C
  pub file : Option Text

-- A request; what health checks, refreshes and the counters of saves do to the state; a save, whether
-- it gets the lock and whether the new file takes its place; a start, and whether it gets the lock.
pub data Event (C : Cache) : Type 0 where
  visited : Visit → Event C
  background : ℕ → (State C → State C) → Event C
  saved : ℕ → Bool → Bool → Event C
  restarted : ℕ → Bool → Event C

-- When an event begins, and the time at which it is over: a start takes at least a nanosecond.
abbrev pub begins : {C : Cache} → Event C → ℕ
begins (visited v) = v.moment
begins (background now effect) = now
begins (saved now locked renamed) = now
begins (restarted now locked) = now

abbrev pub over : {C : Cache} → Event C → ℕ
over (visited v) = v.moment
over (background now effect) = now
over (saved now locked renamed) = now
over (restarted now locked) = suc now

module _ (C : Cache) (query_escape : Text → Text) (setup : Setup)
    (unmarshal : Text → Option (List (Text × CacheEntry))) where
  unfoldable pub step : Event C → Machine C → Machine C
  step (visited v) m = record m { st = (serve C query_escape setup v m.st).1 }
  step (background now effect) m = record m { st = effect m.st }
  step (saved now locked renamed) m = record m {
    file = (save_state_to_file C locked renamed m.st.verified_cache now m.file).1;
  }
  step (restarted now locked) m = record m {
    st = new_state C unmarshal setup.config locked m.file now;
  }

  -- The first start, when there is no state file.
  abbrev pub fresh : ℕ → Bool → Machine C
  fresh now locked = record { st = new_state C unmarshal setup.config locked none now; file = none }

  -- The machine after some events, the last of them first.
  unfoldable pub after : List (Event C) → Machine C → Machine C
  after [] m = m
  after (e ∷ earlier) m = step e (after earlier m)

  -- An event is a visit that passes the challenge and is remembered under a key until a time at
  -- least.
  abbrev pub SolvesAt : Event C → Machine C → Text → ℕ → Type 0
  SolvesAt (visited v) m key later = Solves C query_escape setup v m.st key later
  SolvesAt (background now effect) m key later = ⊥
  SolvesAt (saved now locked renamed) m key later = ⊥
  SolvesAt (restarted now locked) m key later = ⊥

  -- Some event is.
  abbrev pub SolvedBefore : List (Event C) → Machine C → Text → ℕ → Type 0
  SolvedBefore [] m key later = ⊥
  SolvedBefore (e ∷ earlier) m key later =
      SolvesAt e (after earlier m) key later ⊎ SolvedBefore earlier m key later

-- Every event is over when the next one begins.
abbrev pub IsOrdered : {C : Cache} → List (Event C) → Type 0
IsOrdered = AllPairs (λ e earlier. over earlier ≤ begins e)

-- They are all over at a time.
abbrev pub AreOver : {C : Cache} → ℕ → List (Event C) → Type 0
AreOver later = All (λ e. over e ≤ later)
