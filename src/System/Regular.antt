-- ===== src/System/Regular.antt =====
-- Events within their bounds, and what the visits among them say of who is verified.
use captcha_protect.Base.{
  ℕ, ◌+◌, ◌-◌, ◌*◌, ◌<◌, ◌≤◌, ◌≡◌, ◌∙◌, refl, ap, inl, inr, ◌&&◌, Bool, true, false, List, [], ◌∷◌,
  ◌++◌, Option, none, some, Text, codes, text_eq, arith, All, if_both, slt64, sle64, i64_half,
  Option-cases,
}
use captcha_protect.Cache.{Cache, IsLawful}
use captcha_protect.Snapshot.{CacheEntry}
use captcha_protect.Encoding.{valid_string}
use captcha_protect.Middleware.{Setup, State}
use captcha_protect.Persist.{load_persistent_bool_entries, load_state_from_file, calculate_duration}
use captcha_protect.Session.{random_uuid}
use captcha_protect.Session.Ascii.{session_key_valid}
use captcha_protect.Startup.{new_state, window_duration}
use captcha_protect.Verify.{second}
use captcha_protect.Serve.Verified.{is_fallback}
use captcha_protect.Serve.Visits.{Visit, address, Solves, IsKey}
use captcha_protect.Serve.History.{serve-default}
use captcha_protect.System.{
  Machine, Event, visited, background, saved, restarted, over, AreOver, step, after, SolvesAt,
  SolvedBefore,
}

-- Times end before the last nanosecond of 63 bits.
abbrev pub IsEarly : ℕ → Type 0
IsEarly t = t + 1 < i64_half

module _ {C : Cache} (L : IsLawful C) (query_escape : Text → Text) (setup : Setup)
    (unmarshal : Text → Option (List (Text × CacheEntry))) where
  -- The default lifetime of a verification.
  abbrev pub window : ℕ
  window = window_duration C unmarshal setup.config

  -- The times of an event are early enough; the address of a visitor is valid UTF-8 and randomness is
  -- bytes; and the background leaves the verified visitors alone.
  abbrev pub IsRegular : Event C → Type 0
  IsRegular (visited v) =
      IsEarly (v.moment + 3600 * second)
      × IsEarly (v.moment + window)
      × (valid_string (address C query_escape setup v) ≡ true)
      × ((bytes : List ℕ) → v.out.session_bytes ≡ some bytes → All (λ b. b < 256) bytes)
  IsRegular (background now effect) =
      IsEarly now × ((s : State C) → (effect s).verified_cache ≡ s.verified_cache)
  IsRegular (saved now locked renamed) = IsEarly now
  IsRegular (restarted now locked) = IsEarly now

  default-load_persistent :
      (now : ℕ) (entries : List (Text × CacheEntry)) (cache : C.State)
      → C.default (load_persistent_bool_entries C now entries cache) ≡ C.default cache
  unfolding load_persistent_bool_entries
  default-load_persistent now [] cache = refl
  default-load_persistent now ((key, entry) ∷ entries) cache =
      default-load_persistent now entries _
      ∙ if_both (λ s. C.default s ≡ C.default cache)
          (slt64 0 entry.expiration && sle64 entry.expiration now) refl
          (L.default-set cache now key entry.value (calculate_duration entry.expiration now))

  default-load :
      (locked : Bool) (file : Option Text) (now : ℕ) (cache : C.State)
      → C.default (load_state_from_file C unmarshal locked file now cache).1 ≡ C.default cache
  unfolding load_state_from_file
  default-load locked none now cache = refl
  default-load locked (some []) now cache = refl
  default-load false (some (c ∷ t)) now cache = refl
  default-load true (some (c ∷ t)) now cache = elim (Option-cases (unmarshal (c ∷ t))) [
    | inl e ↦ rw e refl
    | inr (entries, e) ↦ rw e (default-load_persistent now entries cache)
  ]

  pub default-new_state :
      (locked : Bool) (file : Option Text) (now : ℕ)
      → C.default (new_state C unmarshal setup.config locked file now).verified_cache ≡ window
  unfolding new_state
  default-new_state locked file now =
      if_both (λ s. C.default s ≡ window) (text_eq setup.config.persistent_state_file [])
        (L.default-empty window)
        (default-load locked file now (C.empty window) ∙ L.default-empty window)

  pub default-step :
      (e : Event C) (m : Machine C)
      → IsRegular e
      → C.default m.st.verified_cache ≡ window
      → C.default (step C query_escape setup unmarshal e m).st.verified_cache ≡ window
  unfolding step
  default-step (visited v) m regular same = serve-default L query_escape setup v m.st ∙ same
  default-step (background now effect) m (_, quiet) same = ap C.default (quiet m.st) ∙ same
  default-step (saved now locked renamed) m regular same = same
  default-step (restarted now locked) m regular same = default-new_state locked m.file now

  drawn_valid :
      (drawn_from : Option (List ℕ)) (token : Text)
      → ((bytes : List ℕ) → drawn_from ≡ some bytes → All (λ b. b < 256) bytes)
      → random_uuid drawn_from ≡ some token
      → valid_string (codes "session:" ++ token) ≡ true
  unfolding random_uuid
  drawn_valid none token small drawn = cc
  drawn_valid (some bytes) token small drawn =
      session_key_valid bytes token (small bytes refl) drawn

  key_valid :
      (v : Visit) (key : Text)
      → IsRegular (visited v)
      → IsKey C query_escape setup v key
      → valid_string key ≡ true
  key_valid v key (_, _, valid, _) (inl (_, same)) = rw same valid
  key_valid v key (_, _, _, small) (inr (_, (token, drawn, same))) =
      rw same (drawn_valid v.out.session_bytes token small drawn)

  module _ (m : Machine C) (same : C.default m.st.verified_cache ≡ window) where
    pub default-after :
        (events : List (Event C))
        → All IsRegular events
        → C.default (after C query_escape setup unmarshal events m).st.verified_cache ≡ window
    unfolding after
    default-after [] regular = same
    default-after (e ∷ earlier) (here, regular) =
        default-step e (after C query_escape setup unmarshal earlier m) here
          (default-after earlier regular)

    -- What every regular visit that passes the challenge gives, a challenge passed before gives.
    solves_at :
        (Q : Text → ℕ → Type 0) (e : Event C) (earlier : List (Event C)) (key : Text) (later : ℕ)
        → IsRegular e
        → All IsRegular earlier
        → ((v : Visit) (st : State C)
            → IsRegular (visited v)
            → C.default st.verified_cache ≡ window
            → Solves C query_escape setup v st key later
            → Q key later)
        → SolvesAt C query_escape setup unmarshal e
            (after C query_escape setup unmarshal earlier m)
            key
            later
        → Q key later
    solves_at Q (visited v) earlier key later here regular give solves =
        give v (after C query_escape setup unmarshal earlier m).st here
          (default-after earlier regular) solves
    solves_at Q (background _ _) earlier key later here regular give solves = absurd solves
    solves_at Q (saved _ _ _) earlier key later here regular give solves = absurd solves
    solves_at Q (restarted _ _) earlier key later here regular give solves = absurd solves

    solved_before :
        (Q : Text → ℕ → Type 0) (events : List (Event C)) (key : Text) (later : ℕ)
        → All IsRegular events
        → ((v : Visit) (st : State C)
            → IsRegular (visited v)
            → C.default st.verified_cache ≡ window
            → Solves C query_escape setup v st key later
            → Q key later)
        → SolvedBefore C query_escape setup unmarshal events m key later
        → Q key later
    solved_before Q [] key later regular give solved = absurd solved
    solved_before Q (e ∷ earlier) key later (here, regular) give (inl solves) =
        solves_at Q e earlier key later here regular give solves
    solved_before Q (e ∷ earlier) key later (here, regular) give (inr solved) =
        solved_before Q earlier key later regular give solved

    -- Nobody is verified for ever.
    pub SolvedBefore-IsEarly :
        (events : List (Event C)) (key : Text) (later : ℕ)
        → All IsRegular events
        → SolvedBefore C query_escape setup unmarshal events m key later
        → IsEarly later
    SolvedBefore-IsEarly events key later regular =
        solved_before (λ k t. IsEarly t) events key later regular
          (λ v st (hour, day, _, _) lasts (_, _, _, soon).
            let day' : IsEarly (v.moment + C.default st.verified_cache) = rw lasts day in
            let early = if_both (λ d. IsEarly (v.moment + d)) (is_fallback setup st) hour day' in
            omega (arith, soon, early))

    -- A visitor is remembered under valid UTF-8.
    pub SolvedBefore-valid :
        (events : List (Event C)) (key : Text) (later : ℕ)
        → All IsRegular events
        → SolvedBefore C query_escape setup unmarshal events m key later
        → valid_string key ≡ true
    SolvedBefore-valid events key later regular =
        solved_before (λ k t. valid_string k ≡ true) events key later regular
          (λ v st here lasts (_, _, named, _). key_valid v key here named)

  pub AreOver-last :
      (events : List (Event C)) → All IsRegular events → AreOver (i64_half - 1) events
  AreOver-last [] regular = tt
  AreOver-last (e ∷ earlier) (here, regular) = (over_last e here, AreOver-last earlier regular)
    where
      over_last : (e : Event C) → IsRegular e → over e ≤ i64_half - 1
      over_last (visited v) h = omega arith
      over_last (background now effect) h = omega arith
      over_last (saved now locked renamed) h = omega arith
      over_last (restarted now locked) h = omega arith
