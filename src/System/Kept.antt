-- ===== src/System/Kept.antt =====
-- What a cache and a state file hold of the challenges that were passed.
use captcha_protect.Base.{
  ℕ, ◌-◌, ◌<◌, ◌≤◌, ◌≡◌, ◌≢◌, ◌∙◌, refl, inl, inr, Bool, true, false, List, [], ◌∷◌, Option, none,
  some, Text, text_eq, arith, All, AllPairs, if_both, i64_half, Option-cases, IsNonneg, Bool-cases,
  text_ne,
}
use captcha_protect.Cache.{Cache, IsLawful}
use captcha_protect.Cache.Items.{items-known, items-IsNonneg}
use captcha_protect.Snapshot.{CacheEntry}
use captcha_protect.Encoding.{valid_string}
use captcha_protect.Middleware.{Setup}
use captcha_protect.Persist.{write_state_json, save_state_to_file, load_state_from_file}
use captcha_protect.Persist.Reader.{read_state}
use captcha_protect.Startup.{new_state}
use captcha_protect.Startup.Restart.{restored}
use captcha_protect.System.{Machine, Event, saved, restarted, over, AreOver, SolvedBefore}
use captcha_protect.System.Regular.{
  IsRegular, IsEarly, window, SolvedBefore-IsEarly, SolvedBefore-valid, AreOver-last,
}

module _ {C : Cache} (L : IsLawful C) (lookup : Text → List Text → Bool)
    (query_escape : Text → Text) (setup : Setup)
    (unmarshal : Text → Option (List (Text × CacheEntry)))
    (decodes : (t : Text) (entries : List (Text × CacheEntry))
      → read_state t ≡ some entries
      → AllPairs (λ a b. a.0 ≢ b.0) entries
      → unmarshal t ≡ some entries)
    (m : Machine C) where
  -- Whoever can be read in a cache, once the events are over, has passed the challenge in them.
  abbrev pub IsKnown : List (Event C) → C.State → Type 0
  IsKnown events cache =
      (key : Text) (later : ℕ)
      → AreOver later events
      → IsNonneg later
      → C.get cache later key ≢ none
      → SolvedBefore C query_escape setup unmarshal events m key later

  -- What a state file was written from.
  pub record IsSaved (events : List (Event C)) (text : Text) : Type 0 where
    pub cache : C.State
    pub time : ℕ
    pub written : text ≡ write_state_json (C.items cache time)
    pub order : (later : ℕ) → AreOver later events → time ≤ later
    pub valid : All (λ e. valid_string e.0 ≡ true) (C.items cache time)
    pub nonneg : All (λ e. IsNonneg e.1.expiration) (C.items cache time)
    pub known : IsKnown events cache

  abbrev pub HoldsSaved : List (Event C) → Option Text → Type 0
  HoldsSaved events none = Unit
  HoldsSaved events (some text) = IsSaved events text

  pub IsKnown-later :
      (e : Event C) (events : List (Event C)) (cache : C.State)
      → IsKnown events cache
      → IsKnown (e ∷ events) cache
  IsKnown-later e events cache known key later (_, ended) fits found =
      inr (known key later ended fits found)

  pub HoldsSaved-later :
      (e : Event C) (events : List (Event C)) (file : Option Text)
      → HoldsSaved events file
      → HoldsSaved (e ∷ events) file
  HoldsSaved-later e events none h = tt
  HoldsSaved-later e events (some text) h = record {
    cache = h.cache;
    time = h.time;
    written = h.written;
    order = λ later (_, ended). h.order later ended;
    valid = h.valid;
    nonneg = h.nonneg;
    known = IsKnown-later e events h.cache h.known;
  }

  -- A start without a file, or without the lock, shows nobody.
  pub new_state-none :
      (locked : Bool) (now later : ℕ) (key : Text)
      → C.get (new_state C unmarshal setup.config locked none now).verified_cache later key ≡ none
  unfolding new_state load_state_from_file
  new_state-none locked now later key =
      if_both (λ s. C.get s later key ≡ none) (text_eq setup.config.persistent_state_file [])
        (L.get-empty _ later key) (L.get-empty _ later key)

  new_state_unlocked :
      (text : Text) (now later : ℕ) (key : Text)
      → C.get (new_state C unmarshal setup.config false (some text) now).verified_cache later key
        ≡ none
  unfolding new_state load_state_from_file
  new_state_unlocked [] now later key =
      if_both (λ s. C.get s later key ≡ none) (text_eq setup.config.persistent_state_file [])
        (L.get-empty _ later key) (L.get-empty _ later key)
  new_state_unlocked (c ∷ t) now later key =
      if_both (λ s. C.get s later key ≡ none) (text_eq setup.config.persistent_state_file [])
        (L.get-empty _ later key) (L.get-empty _ later key)

  -- With the lock it shows who was in the cache that was saved, or nobody.
  new_state_loaded :
      (events : List (Event C)) (text : Text) (held : IsSaved events text) (now later : ℕ)
      (key : Text)
      → AreOver now events
      → now < later
      → IsNonneg later
      → C.get (new_state C unmarshal setup.config true (some text) now).verified_cache later key
        ≢ none
      → C.get held.cache later key ≢ none
  unfolding save_state_to_file
  new_state_loaded events text held now later key ended order fits found gone =
      elim (Bool-cases (text_eq setup.config.persistent_state_file [])) [
        | inl off ↦ found (unfold new_state in rw off (L.get-empty _ later key))
        | inr on ↦
            let same =
              restored L lookup query_escape setup unmarshal held.time now later held.cache none key
                (text_ne setup.config.persistent_state_file [] on) (held.order now ended) order fits
                held.nonneg held.valid decodes in
            found (rw held.written (same ∙ gone))
      ]

  -- A start shows what the file holds, and nobody else.
  pub new_state-IsKnown :
      (now : ℕ) (locked : Bool) (events : List (Event C)) (file : Option Text)
      → AreOver now events
      → HoldsSaved events file
      → IsKnown
          (restarted now locked ∷ events)
          (new_state C unmarshal setup.config locked file now).verified_cache
  new_state-IsKnown now locked events none ended held key later (started, ended') fits found =
      absurd (found (new_state-none locked now later key))
  new_state-IsKnown now false events (some text) ended held key later (started, ended') fits found =
      absurd (found (new_state_unlocked text now later key))
  new_state-IsKnown now true events (some text) ended held key later (started, ended') fits found =
      inr (
        held.known key later ended' fits
          (new_state_loaded events text held now later key ended (omega arith) fits found))

  module _ (now : ℕ) (events : List (Event C)) (cache : C.State) (early : IsEarly now)
      (regular : All (IsRegular L query_escape setup unmarshal) events) (ended : AreOver now events)
      (lasts : C.default m.st.verified_cache ≡ window L query_escape setup unmarshal)
      (known : IsKnown events cache) where
    -- What is saved can be read again: the keys are valid UTF-8, and everything expires.
    pub items_valid : All (λ e. valid_string e.0 ≡ true) (C.items cache now)
    items_valid =
        items-known L cache now (λ k. valid_string k ≡ true) (omega arith)
          (λ k found.
            SolvedBefore-valid L query_escape setup unmarshal m lasts events k now regular
              (known k now ended (omega arith) found))

    pub items_expire : All (λ e. IsNonneg e.1.expiration) (C.items cache now)
    items_expire =
        let last : IsNonneg (i64_half - 1) = omega arith in
        let over_then = AreOver-last L query_escape setup unmarshal events regular in
        items-IsNonneg L cache now (i64_half - 1) (omega arith) last (λ k.
          elim (Option-cases (C.get cache (i64_half - 1) k)) [
            | inl gone ↦ gone
            | inr (b, there) ↦
                let early =
                  SolvedBefore-IsEarly L query_escape setup unmarshal m lasts events k
                    (i64_half - 1) regular (known k (i64_half - 1) over_then last (λ gone. cc)) in
                absurd (omega arith)
          ])

    -- So it is in the file, with everybody in it known.
    written-IsSaved :
        (e : Event C) → over e ≡ now → IsSaved (e ∷ events) (write_state_json (C.items cache now))
    written-IsSaved e ends = record {
      cache = cache;
      time = now;
      written = refl;
      order = λ later (here, _). omega arith;
      valid = items_valid;
      nonneg = items_expire;
      known = IsKnown-later e events cache known;
    }

  pub saved-HoldsSaved :
      (now : ℕ) (locked renamed : Bool) (events : List (Event C)) (cache : C.State)
      (file : Option Text)
      → IsEarly now
      → All (IsRegular L query_escape setup unmarshal) events
      → AreOver now events
      → C.default m.st.verified_cache ≡ window L query_escape setup unmarshal
      → IsKnown events cache
      → HoldsSaved events file
      → HoldsSaved
          (saved now locked renamed ∷ events)
          (save_state_to_file C locked renamed cache now file).1
  unfolding save_state_to_file
  saved-HoldsSaved now false renamed events cache file early regular ended lasts known held =
      HoldsSaved-later (saved now false renamed) events file held
  saved-HoldsSaved now true false events cache file early regular ended lasts known held =
      HoldsSaved-later (saved now true false) events file held
  saved-HoldsSaved now true true events cache file early regular ended lasts known held =
      written-IsSaved now events cache early regular ended lasts known (saved now true true) refl
