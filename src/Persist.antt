-- ===== src/Persist.antt =====
-- The state file: internal/state/state.go. Bytes are written and decoded here; the file itself is
-- its content, or `none` where it cannot be read. `unmarshal` is `json.Unmarshal` into a
-- `persistentState`, of which only `verified` is used. The lock is that of Lock.
pub mod Atomic
pub mod Json
pub mod Decimal
pub mod Reader
pub mod Entries
pub mod Written
pub mod Restored
pub mod Reload
use captcha_protect.Base.{
  ℕ, zero, suc, ◌+◌, ◌-◌, ◌/◌, ◌%◌, Bool, true, false, not, ◌&&◌, ◌||◌, List, [], ◌∷◌, ◌++◌, Option,
  none, some, Text, codes, length, add64, sub64, slt64, sle64, i64_half, u64_mod, if◌then◌else◌,
  ◌==◌, ltb, leb,
}
use captcha_protect.Cache.{Cache, Item, no_expiration}
use captcha_protect.Encoding.{valid_string, marshal_string}
use captcha_protect.Snapshot.{CacheEntry, map_size, string_size, item_size}

-- `strconv.FormatUint` in base 10 of a number of at most `fuel` digits.
unfoldable pub decimal_digits : ℕ → ℕ → Text → Text
decimal_digits zero n found = found
decimal_digits (suc fuel) n found =
    let digits = (n % 10 + 48) ∷ found in
    let rest = decimal_digits fuel (n / 10) digits in if ltb n 10 then digits else rest

abbrev pub format_uint : ℕ → Text
format_uint n = decimal_digits 20 n []

-- `strconv.FormatInt` of a 64-bit pattern.
abbrev pub format_int : ℕ → Text
format_int n = if ltb n i64_half then format_uint n else b'-' ∷ format_uint (u64_mod - n)

-- The loop over the bytes, with the flag `asciiOnly` so far.
unfoldable pub plain_loop : Bool → Bool → Text → Bool
plain_loop ascii_only valid [] = ascii_only || valid
plain_loop ascii_only valid (c ∷ value) =
    let rest = plain_loop (if leb 0x80 c then false else ascii_only) valid value in
    if c == 0x5c || c == 0x22 then false else if ltb c 0x20 then false else rest

unfoldable pub is_plain_json_string : Text → Bool
is_plain_json_string value = plain_loop true (valid_string value) value

unfoldable pub write_bool : Bool → Text
write_bool value = if value then codes "true" else codes "false"

unfoldable pub write_json_string : Text → Text
write_json_string value =
    if is_plain_json_string value then b'"' ∷ (value ++ (b'"' ∷ [])) else marshal_string value

-- The loop of `writeCacheEntryMap`, from the flag `first` and the memory counted so far: what is
-- written, and the memory counted.
unfoldable pub write_entries : List (Text × Item) → Bool → ℕ → Text × ℕ
write_entries [] first memory = ([], memory)
write_entries ((key, item) ∷ items) first memory =
    let (rest, total) =
      write_entries items false (add64 (add64 (add64 memory string_size) item_size) (length key)) in
    (
      (if first then [] else codes ",")
          ++ (write_json_string key
              ++ (codes ":{\"value\":"
                  ++ (write_bool item.object
                      ++ (codes ",\"expiration\":"
                          ++ (format_int item.expiration ++ (b'}' ∷ rest)))))),
      total,
    )

unfoldable pub write_cache_entry_map : List (Text × Item) → Text × ℕ
write_cache_entry_map items =
    let (entries, memory) = write_entries items true map_size in
    (b'{' ∷ (entries ++ codes "}"), memory)

unfoldable pub write_state_json : List (Text × Item) → Text
write_state_json items =
    let (entries, memory) = write_cache_entry_map items in
    codes "{\"verified\":"
    ++ (entries ++ (codes ",\"memory\":{\"verified\":" ++ (format_uint memory ++ codes "}}")))

-- `SaveStateToFileWithMetrics` with `atomicWriteStateFile`: whether it succeeds, and the file
-- after it. `locked` says that the lock was acquired, `renamed` that the temporary file was
-- written and took the place of the state file; before that the state file is not touched.
unfoldable pub save_state_to_file :
    (C : Cache) → Bool → Bool → C.State → ℕ → Option Text → Bool × Option Text
save_state_to_file C locked renamed verified_cache now file =
    if not locked
    then (false, file)
    else if not renamed
    then (false, file)
    else (true, some (write_state_json (C.items verified_cache now)))

unfoldable pub calculate_duration : ℕ → ℕ → ℕ
calculate_duration expiration now = if expiration == 0 then no_expiration else sub64 expiration now

module _ (C : Cache) where
  unfoldable pub load_persistent_bool_entries : ℕ → List (Text × CacheEntry) → C.State → C.State
  load_persistent_bool_entries now [] cache = cache
  load_persistent_bool_entries now ((key, entry) ∷ entries) cache =
      load_persistent_bool_entries now entries (
        if slt64 0 entry.expiration && sle64 entry.expiration now
        then cache
        else C.set cache now key entry.value (calculate_duration entry.expiration now))

  abbrev pub set_persistent_state : ℕ → List (Text × CacheEntry) → C.State → C.State
  set_persistent_state now verified cache = load_persistent_bool_entries now verified cache

  unfoldable pub load_state_from_file :
      (Text → Option (List (Text × CacheEntry))) → Bool → Option Text → ℕ → C.State → Bool × C.State
  load_state_from_file unmarshal locked none now cache = (false, cache)
  load_state_from_file unmarshal locked (some []) now cache = (locked, cache)
  load_state_from_file unmarshal locked (some (c ∷ content)) now cache =
      if not locked then (false, cache) else elim (unmarshal (c ∷ content)) [
        | none ↦ (false, cache)
        | some entries ↦ (true, set_persistent_state now entries cache)
      ]
