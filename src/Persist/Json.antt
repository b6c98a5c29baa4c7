-- ===== src/Persist/Json.antt =====
-- What is written to the state file.
use captcha_protect.Base.{
  ℕ, ◌≤◌, ◌<◌, ◌≡◌, ◌≢◌, ◌↔◌, ◌⊎◌, refl, Bool, true, false, List, [], ◌∷◌, Text, arith, All,
}
use captcha_protect.Cache.{Item}
use captcha_protect.Snapshot.{get_state, get_cache_entries, map_size}
use captcha_protect.Encoding.{valid_string}
use captcha_protect.Persist.{plain_loop, is_plain_json_string, write_entries, write_cache_entry_map}

-- A byte that JSON takes as it is between quotation marks.
abbrev pub IsPlainByte : ℕ → Type 0
IsPlainByte c = (c ≢ 0x5c) × (c ≢ 0x22) × (0x20 ≤ c)

plain_loop_iff :
    (ascii_only valid : Bool) (value : Text)
    → (plain_loop ascii_only valid value ≡ true) ↔ (
        All IsPlainByte value
        × (((ascii_only ≡ true) × All (λ c. c < 0x80) value) ⊎ (valid ≡ true)))
unfolding plain_loop
plain_loop_iff ascii_only valid [] = ground arith
plain_loop_iff ascii_only valid (c ∷ value) =
    let kept = plain_loop_iff ascii_only valid value in
    let dropped = plain_loop_iff false valid value in ground arith

-- A text is written between quotation marks as it is exactly when it has no quotation mark, no
-- backslash and no control character, and is ASCII or valid UTF-8.
pub is_plain_json_string_iff :
    (value : Text)
    → (is_plain_json_string value ≡ true)
      ↔ (All IsPlainByte value × (All (λ c. c < 0x80) value ⊎ (valid_string value ≡ true)))
unfolding is_plain_json_string
is_plain_json_string_iff value =
    let loop = plain_loop_iff true (valid_string value) value in ground arith

write_entries-memory :
    (items : List (Text × Item)) (first : Bool) (memory : ℕ)
    → (write_entries items first memory).1 ≡ (get_cache_entries items memory).1
unfolding write_entries get_cache_entries
write_entries-memory [] first memory = refl
write_entries-memory ((key, item) ∷ items) first memory = write_entries-memory items false _

-- The memory that is written to the state file is the one that the statistics page shows.
pub write_cache_entry_map-memory :
    (items : List (Text × Item)) → (write_cache_entry_map items).1 ≡ (get_state items).memory
unfolding write_cache_entry_map get_state
write_cache_entry_map-memory items = write_entries-memory items true map_size
