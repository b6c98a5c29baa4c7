-- ===== src/System/Lasting.antt =====
-- A verification lasts through saves and restarts until its time is over.
use captcha_protect.Base.{
  ℕ, ◌≤◌, ◌<◌, ◌≡◌, ◌≢◌, ◌∙◌, refl, Bool, true, false, List, [], ◌∷◌, ◌++◌, Option, none, some,
  Text, arith, All, AllPairs, IsNonneg,
}
use captcha_protect.Cache.{Cache, IsLawful}
use captcha_protect.Snapshot.{CacheEntry}
use captcha_protect.Encoding.{valid_string}
use captcha_protect.Middleware.{Setup}
use captcha_protect.Persist.{write_state_json, save_state_to_file}
use captcha_protect.Persist.Reader.{read_state}
use captcha_protect.Startup.{new_state}
use captcha_protect.Startup.Restart.{restored}
use captcha_protect.System.{
  Machine, Event, visited, background, saved, restarted, AreOver, IsOrdered, step, after, SolvesAt,
}
use captcha_protect.System.Regular.{IsRegular, window}
use captcha_protect.System.Kept.{items_valid, items_expire}
use captcha_protect.System.Verified.{after-IsAccounted}
use captcha_protect.System.Staying.{get-serve_other}

-- The state has been saved: an event is a save that gets the lock and whose file takes its place.
abbrev pub IsSavedSince : {C : Cache} → List (Event C) → Type 0
IsSavedSince [] = ⊥
IsSavedSince (saved now true true ∷ earlier) = Unit {0}
IsSavedSince (e ∷ earlier) = IsSavedSince earlier

-- Every start gets the lock, and comes after such a save.
abbrev pub IsBacked : {C : Cache} → List (Event C) → Type 0
IsBacked [] = Unit {0}
IsBacked (restarted now locked ∷ earlier) =
    (locked ≡ true) × IsSavedSince earlier × IsBacked earlier
IsBacked (e ∷ earlier) = IsBacked earlier

IsBacked-earlier :
    {C : Cache} (e : Event C) (earlier : List (Event C)) → IsBacked (e ∷ earlier) → IsBacked earlier
IsBacked-earlier (visited v) earlier backed = backed
IsBacked-earlier (background now effect) earlier backed = backed
IsBacked-earlier (saved now locked renamed) earlier backed = backed
IsBacked-earlier (restarted now locked) earlier (_, _, backed) = backed

module _ (C : Cache) (query_escape : Text → Text) (setup : Setup)
    (unmarshal : Text → Option (List (Text × CacheEntry))) (m : Machine C) (base : List (Event C))
    (key : Text) where
  -- No event passes the challenge under the key.
  abbrev pub IsAlone : List (Event C) → Type 0
  IsAlone [] = Unit {0}
  IsAlone (e ∷ earlier) =
      (¬ SolvesAt C query_escape setup unmarshal e
        (after C query_escape setup unmarshal (earlier ++ base) m) key 0)
      × IsAlone earlier

module _ {C : Cache} (L : IsLawful C) (lookup : Text → List Text → Bool)
    (query_escape : Text → Text) (setup : Setup)
    (unmarshal : Text → Option (List (Text × CacheEntry)))
    (decodes : (t : Text) (entries : List (Text × CacheEntry))
      → read_state t ≡ some entries
      → AllPairs (λ a b. a.0 ≢ b.0) entries
      → unmarshal t ≡ some entries)
    (on : setup.config.persistent_state_file ≢ []) (m : Machine C) (base : List (Event C))
    (key : Text) (until : ℕ) (positive : 0 < window L query_escape setup unmarshal)
    (lasts : C.default m.st.verified_cache ≡ window L query_escape setup unmarshal)
    (nobody : (k : Text) (later : ℕ) → C.get m.st.verified_cache later k ≡ none)
    (no_file : m.file ≡ none) where
  -- The key can be read in a cache until the time is over.
  abbrev pub Stays : List (Event C) → C.State → Type 0
  Stays events cache =
      (later : ℕ)
      → AreOver later (events ++ base)
      → IsNonneg later
      → later ≤ until
      → C.get cache later key ≡ some true

  -- The file was written from such a cache.
  pub record IsBackup (events : List (Event C)) (file : Option Text) : Type 0 where
    pub cache : C.State
    pub time : ℕ
    pub written : file ≡ some (write_state_json (C.items cache time))
    pub order : (later : ℕ) → AreOver later (events ++ base) → time ≤ later
    pub valid : All (λ e. valid_string e.0 ≡ true) (C.items cache time)
    pub nonneg : All (λ e. IsNonneg e.1.expiration) (C.items cache time)
    pub stays : Stays events cache

  abbrev pub Holds : List (Event C) → Machine C → Type 0
  Holds events n = Stays events n.st.verified_cache × (IsSavedSince events → IsBackup events n.file)

  Stays-later :
      (e : Event C) (events : List (Event C)) (cache : C.State)
      → Stays events cache
      → Stays (e ∷ events) cache
  Stays-later e events cache stays later (_, ended) fits soon = stays later ended fits soon

  IsBackup-later :
      (e : Event C) (events : List (Event C)) (file : Option Text)
      → IsBackup events file
      → IsBackup (e ∷ events) file
  IsBackup-later e events file b = record {
    cache = b.cache;
    time = b.time;
    written = b.written;
    order = λ later (_, ended). b.order later ended;
    valid = b.valid;
    nonneg = b.nonneg;
    stays = Stays-later e events b.cache b.stays;
  }

  -- What a save leaves in the file.
  saved-IsBackup :
      (now : ℕ) (locked renamed : Bool) (events : List (Event C)) (file : Option Text)
      → let n = after C query_escape setup unmarshal (events ++ base) m in
        All (IsRegular L query_escape setup unmarshal) ((saved now locked renamed ∷ events) ++ base)
        → IsOrdered ((saved now locked renamed ∷ events) ++ base)
        → Stays events n.st.verified_cache
        → (IsSavedSince events → IsBackup events file)
        → IsSavedSince (saved now locked renamed ∷ events)
        → IsBackup
            (saved now locked renamed ∷ events)
            (save_state_to_file C locked renamed n.st.verified_cache now file).1
  unfolding save_state_to_file
  saved-IsBackup now false renamed events file regular ordered stays backup since =
      IsBackup-later (saved now false renamed) events file (backup since)
  saved-IsBackup now true false events file regular ordered stays backup since =
      IsBackup-later (saved now true false) events file (backup since)
  saved-IsBackup now true true events file (early, regular) (ended, ordered) stays backup since =
      let n = after C query_escape setup unmarshal (events ++ base) m in
      let (known, _) =
        after-IsAccounted L lookup query_escape setup unmarshal decodes m (events ++ base) positive
          lasts nobody no_file regular ordered in
      record {
        cache = n.st.verified_cache;
        time = now;
        written = refl;
        order = λ later (here, _). here;
        valid =
            items_valid L lookup query_escape setup unmarshal decodes m now (events ++ base)
              n.st.verified_cache early regular ended lasts known;
        nonneg =
            items_expire L lookup query_escape setup unmarshal decodes m now (events ++ base)
              n.st.verified_cache early regular ended lasts known;
        stays = Stays-later (saved now true true) events n.st.verified_cache stays;
      }

  -- What a start finds there.
  restarted-Stays :
      (now : ℕ) (events : List (Event C)) (file : Option Text)
      → AreOver now (events ++ base)
      → IsBackup events file
      → Stays
          (restarted now true ∷ events)
          (new_state C unmarshal setup.config true file now).verified_cache
  unfolding save_state_to_file
  restarted-Stays now events file ended b later (here, ended') fits soon = rw b.written (
      restored L lookup query_escape setup unmarshal b.time now later b.cache none key on
        (b.order now ended) (omega arith) fits b.nonneg b.valid decodes
      ∙ b.stays later ended' fits soon)

  step-Holds :
      (e : Event C) (events : List (Event C))
      → All (IsRegular L query_escape setup unmarshal) ((e ∷ events) ++ base)
      → IsOrdered ((e ∷ events) ++ base)
      → IsAlone C query_escape setup unmarshal m base key (e ∷ events)
      → IsBacked (e ∷ events)
      → Holds events (after C query_escape setup unmarshal (events ++ base) m)
      → Holds (e ∷ events) (
          step C query_escape setup unmarshal e
            (after C query_escape setup unmarshal (events ++ base) m))
  unfolding step
  step-Holds (visited v) events regular ordered (other, alone) backed (stays, backup) =
      let n = after C query_escape setup unmarshal (events ++ base) m in
      (
        λ later (_, ended) fits soon.
            get-serve_other L query_escape setup v n.st key later other
            ∙ stays later ended fits soon,
        λ since. IsBackup-later (visited v) events n.file (backup since),
      )
  step-Holds (background now effect) events ((_, quiet), regular) ordered alone backed
        (stays, backup) =
      let n = after C query_escape setup unmarshal (events ++ base) m in
      (
        λ later (_, ended) fits soon. rw (quiet n.st) (stays later ended fits soon),
        λ since. IsBackup-later (background now effect) events n.file (backup since),
      )
  step-Holds (saved now locked renamed) events regular ordered alone backed (stays, backup) =
      let n = after C query_escape setup unmarshal (events ++ base) m in
      (
        Stays-later (saved now locked renamed) events n.st.verified_cache stays,
        saved-IsBackup now locked renamed events n.file regular ordered stays backup,
      )
  step-Holds (restarted now locked) events regular (ended, ordered) alone (has_lock, since, backed)
        (stays, backup) =
      let n = after C query_escape setup unmarshal (events ++ base) m in
      (
        rw has_lock (restarted-Stays now events n.file ended (backup since)),
        λ _. IsBackup-later (restarted now locked) events n.file (backup since),
      )

  pub after-Holds :
      (events : List (Event C))
      → All (IsRegular L query_escape setup unmarshal) (events ++ base)
      → IsOrdered (events ++ base)
      → IsAlone C query_escape setup unmarshal m base key events
      → IsBacked events
      → Stays [] (after C query_escape setup unmarshal base m).st.verified_cache
      → Holds events (after C query_escape setup unmarshal (events ++ base) m)
  unfolding after
  after-Holds [] regular ordered alone backed stays = (stays, λ since. absurd since)
  after-Holds (e ∷ events) (here, regular) (ended, ordered) (other, alone) backed stays =
      step-Holds e events (here, regular) (ended, ordered) (other, alone) backed
        (after-Holds events regular ordered alone (IsBacked-earlier e events backed) stays)
