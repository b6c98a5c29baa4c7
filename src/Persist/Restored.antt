-- ===== src/Persist/Restored.antt =====
-- `SetState` of internal/state/state.go, with `loadCacheEntries` and `convertBoolValue`.
use captcha_protect.Base.{
  ℕ, ◌≡◌, refl, Bool, ◌&&◌, List, [], ◌∷◌, Option, none, some, Text, slt64, sle64, if◌then◌else◌,
  Bool-cases, inl, inr,
}
use captcha_protect.Cache.{Cache}
use captcha_protect.Snapshot.{CacheEntry}
use captcha_protect.Persist.{calculate_duration, load_persistent_bool_entries}

-- A value of the type `interface{}`, of which only the Boolean ones are told apart.
pub data Value : Type 0 where
  bool_value : Bool → Value
  other_value : Value

unfoldable pub convert_bool_value : Value → Option Bool
convert_bool_value (bool_value b) = some b
convert_bool_value other_value = none

-- `CacheEntry`, before its value is converted.
pub record AnyEntry : Type 0 where
  pub value : Value
  pub expiration : ℕ  -- int64

module _ (C : Cache) where
  unfoldable pub load_cache_entries : ℕ → List (Text × AnyEntry) → C.State → C.State
  load_cache_entries now [] cache = cache
  load_cache_entries now ((k, entry) ∷ entries) cache = load_cache_entries now entries (
      if slt64 0 entry.expiration && sle64 entry.expiration now
      then cache
      else elim (convert_bool_value entry.value) [
        | none ↦ cache
        | some value ↦ C.set cache now k value (calculate_duration entry.expiration now)
      ])

  -- `SetState`
  abbrev pub set_state : ℕ → List (Text × AnyEntry) → C.State → C.State
  set_state = load_cache_entries

-- The entries whose value is Boolean.
unfoldable pub bool_entries : List (Text × AnyEntry) → List (Text × CacheEntry)
bool_entries [] = []
bool_entries ((k, entry) ∷ entries) =
    let rest = bool_entries entries in
    elim entry.value [
      | bool_value b ↦ (k, record { value = b; expiration = entry.expiration }) ∷ rest
      | other_value ↦ rest
    ]

module _ (C : Cache) (now : ℕ) where
  set_state_step :
      (k : Text) (value : Value) (expiration : ℕ) (entries : List (Text × AnyEntry))
      (cache : C.State)
      → ((cache' : C.State)
          → load_cache_entries C now entries cache'
            ≡ load_persistent_bool_entries C now (bool_entries entries) cache')
      → load_cache_entries C now
          ((k, record { value = value; expiration = expiration }) ∷ entries)
          cache
        ≡ load_persistent_bool_entries C now
            (bool_entries ((k, record { value = value; expiration = expiration }) ∷ entries))
            cache
  unfolding load_cache_entries load_persistent_bool_entries bool_entries convert_bool_value
  set_state_step k (bool_value b) expiration entries cache same = same _
  set_state_step k other_value expiration entries cache same =
      elim (Bool-cases (slt64 0 expiration && sle64 expiration now)) [
        | inl e ↦ rw e (same cache)
        | inr e ↦ rw e (same cache)
      ]

  -- A snapshot is loaded as a state file with the same entries is, and an entry whose value is not
  -- Boolean is passed over.
  pub set_state-load_persistent_bool_entries :
      (entries : List (Text × AnyEntry)) (cache : C.State)
      → set_state C now entries cache
        ≡ load_persistent_bool_entries C now (bool_entries entries) cache
  unfolding load_cache_entries load_persistent_bool_entries bool_entries
  set_state-load_persistent_bool_entries [] cache = refl
  set_state-load_persistent_bool_entries ((k, entry) ∷ entries) cache =
      set_state_step k entry.value entry.expiration entries cache
        (set_state-load_persistent_bool_entries entries)
