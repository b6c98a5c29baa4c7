-- ===== src/Persist/Reload.antt =====
-- Who is verified after a restart.
use captcha_protect.Base.{
  ℕ, ◌≤◌, ◌<◌, ◌≡◌, ◌≢◌, ◌∙◌, refl, sym, inl, inr, true, false, ◌&&◌, List, [], ◌∷◌, Text, text_eq,
  text_eq_iff, text_ne, Option, none, some, arith, All, AllPairs, if_both, if◌then◌else◌,
  Bool-cases, IsNonneg, slt64, sle64,
}
use captcha_protect.Cache.{Cache, IsLawful, Item, find_item, live_object, expiration_of}
use captcha_protect.Snapshot.{CacheEntry, get_state, get_cache_entries, map_size}
use captcha_protect.Encoding.{valid_string}
use captcha_protect.Persist.{
  calculate_duration, load_persistent_bool_entries, load_state_from_file, save_state_to_file,
  write_state_json,
}
use captcha_protect.Persist.Reader.{read_state}
use captcha_protect.Persist.Entries.{AreWritable}
use captcha_protect.Persist.Written.{read_state-write_state_json}

-- An entry that is set again for the time that is left expires when it did before.
expiration_of-calculate_duration :
    (default now expiration : ℕ)
    → IsNonneg now
    → IsNonneg expiration
    → slt64 0 expiration && sle64 expiration now ≡ false
    → expiration_of default now (calculate_duration expiration now) ≡ expiration
unfolding calculate_duration
expiration_of-calculate_duration default now expiration hn he kept = ground arith

-- An entry that is not loaded has expired at every later time.
skipped_expired :
    (item : Item) (now later : ℕ)
    → IsNonneg later
    → now < later
    → slt64 0 item.expiration && sle64 item.expiration now ≡ true
    → live_object item later ≡ none
skipped_expired item now later fits order skipped = ground arith

AreWritable-of :
    (items : List (Text × Item))
    → All (λ e. valid_string e.0 ≡ true) items
    → All (λ e. IsNonneg e.1.expiration) items
    → AreWritable items
AreWritable-of [] h nonneg = tt
AreWritable-of (e ∷ items) (h, hs) (n, ns) = ((h, omega arith), AreWritable-of items hs ns)

other_keys :
    (k : Text) (items : List (Text × Item)) (memory : ℕ)
    → All (λ e. k ≢ e.0) items
    → All (λ e. k ≢ e.0) (get_cache_entries items memory).0
unfolding get_cache_entries
other_keys k [] memory h = tt
other_keys k (e ∷ items) memory (h, hs) = (h, other_keys k items _ hs)

keys-get_cache_entries :
    (items : List (Text × Item)) (memory : ℕ)
    → AllPairs (λ a b. a.0 ≢ b.0) items
    → AllPairs (λ a b. a.0 ≢ b.0) (get_cache_entries items memory).0
unfolding get_cache_entries
keys-get_cache_entries [] memory h = tt
keys-get_cache_entries (e ∷ items) memory (h, hs) =
    (other_keys e.0 items _ h, keys-get_cache_entries items _ hs)

write_state_json_begins :
    (items : List (Text × Item)) → (c : ℕ) × (t : Text) × (write_state_json items ≡ c ∷ t)
unfolding write_state_json
write_state_json_begins items = (b'{', _, refl)

module _ {C : Cache} (L : IsLawful C) (now later : ℕ) where
  -- The cache after one entry.
  abbrev loaded : Text → Item → C.State → C.State
  loaded j item cache =
      if slt64 0 item.expiration && sle64 item.expiration now
      then cache
      else C.set cache now j item.object (calculate_duration item.expiration now)

  loaded_other :
      (j k : Text) (item : Item) (cache : C.State)
      → k ≢ j
      → C.get (loaded j item cache) later k ≡ C.get cache later k
  loaded_other j k item cache other =
      if_both (λ s. C.get s later k ≡ C.get cache later k)
        (slt64 0 item.expiration && sle64 item.expiration now) refl
        (L.get-set_other cache now later j k item.object (calculate_duration item.expiration now)
          other)

  loaded_self :
      (j : Text) (item : Item) (cache : C.State)
      → now < later
      → IsNonneg later
      → IsNonneg item.expiration
      → C.get cache later j ≡ none
      → C.get (loaded j item cache) later j ≡ live_object item later
  loaded_self j item cache order fits nonneg fresh =
      elim (Bool-cases (slt64 0 item.expiration && sle64 item.expiration now)) [
        | inl skipped ↦ rw skipped (fresh ∙ sym (skipped_expired item now later fits order skipped))
        | inr kept ↦
            rw
              (
                kept,
                L.get-set_self,
                expiration_of-calculate_duration (C.default cache) now item.expiration (omega arith)
                    nonneg kept,
              )
              refl
      ]

  load_other :
      (k : Text) (items : List (Text × Item)) (memory : ℕ) (cache : C.State)
      → All (λ e. k ≢ e.0) items
      → C.get (load_persistent_bool_entries C now (get_cache_entries items memory).0 cache) later k
        ≡ C.get cache later k
  unfolding load_persistent_bool_entries get_cache_entries
  load_other k [] memory cache others = refl
  load_other k ((j, item) ∷ items) memory cache (other, others) =
      load_other k items _ _ others ∙ loaded_other j k item cache other

  load_items :
      (k : Text) (items : List (Text × Item)) (memory : ℕ) (cache : C.State)
      → now < later
      → IsNonneg later
      → AllPairs (λ a b. a.0 ≢ b.0) items
      → All (λ e. IsNonneg e.1.expiration) items
      → C.get cache later k ≡ none
      → C.get (load_persistent_bool_entries C now (get_cache_entries items memory).0 cache) later k
        ≡ find_item items later k
  unfolding load_persistent_bool_entries get_cache_entries find_item
  load_items k [] memory cache order fits distinct nonneg fresh = fresh
  load_items k ((j, item) ∷ items) memory cache order fits (apart, distinct) (h, nonneg) fresh =
      elim (Bool-cases (text_eq j k)) [
        | inl e ↦
            let same : j ≡ k = (text_eq_iff j k).0 e in
            rw (e, ← same)
              (load_other j items _ _ apart ∙ loaded_self j item cache order fits h (rw same fresh))
        | inr e ↦
            let other : k ≢ j = λ same. text_ne j k e (sym same) in
            rw e (
              load_items k items _ _ order fits distinct nonneg
                (loaded_other j k item cache other ∙ fresh))
      ]

  -- A restart loses nobody and lets nobody stay longer: when the verified visitors are written to
  -- the state file and read back into an empty cache no earlier, at every later time a visitor is
  -- verified exactly if the visitor was going to be. The cache meets its laws, the times fit in 63
  -- bits, the keys are valid UTF-8, and encoding/json reads what the strict reader reads, where no
  -- key comes twice.
  pub load_state_from_file-save_state_to_file :
      (unmarshal : Text → Option (List (Text × CacheEntry))) (verified_cache : C.State)
      (saved default : ℕ) (file : Option Text) (k : Text)
      → saved ≤ now
      → now < later
      → IsNonneg later
      → All (λ e. IsNonneg e.1.expiration) (C.items verified_cache saved)
      → All (λ e. valid_string e.0 ≡ true) (C.items verified_cache saved)
      → ((t : Text) (entries : List (Text × CacheEntry))
          → read_state t ≡ some entries
          → AllPairs (λ a b. a.0 ≢ b.0) entries
          → unmarshal t ≡ some entries)
      → let (_, file') = save_state_to_file C true true verified_cache saved file in
        let (ok, cache) = load_state_from_file C unmarshal true file' now (C.empty default) in
        (ok ≡ true) × (C.get cache later k ≡ C.get verified_cache later k)
  unfolding save_state_to_file load_state_from_file get_state
  load_state_from_file-save_state_to_file unmarshal verified_cache saved default file k before order
        fits nonneg writable decodes =
      let items = C.items verified_cache saved in
      let distinct = L.keys-items verified_cache saved in
      let (c, t, begins) = write_state_json_begins items in
      let reads : unmarshal (write_state_json items) ≡ some (get_state items).verified =
        decodes _ _ (read_state-write_state_json items (AreWritable-of items writable nonneg))
          (keys-get_cache_entries items map_size distinct) in
      let reads' = rw begins at reads in
      rw (begins, reads')
        (
          refl,
          load_items k items map_size (C.empty default) order fits distinct nonneg
                (L.get-empty default later k)
              ∙ L.get-items verified_cache saved later k (omega arith) fits,
        )
