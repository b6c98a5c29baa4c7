-- ===== src/Tests/Logging.antt =====
-- Tests of what is logged, of tokens and of snapshots, with the theorems at concrete data.
use captcha_protect.Base.{
  ℕ, ◌≡◌, ◌≢◌, refl, List, [], ◌∷◌, some, Bool, true, false, Text, codes, arith, All,
}
use captcha_protect.Session.{random_uuid}
use captcha_protect.Session.Tokens.{kept, random_uuid-inj}
use captcha_protect.Logged.{parse_http_methods, parse_log_level, warning, info}
use captcha_protect.Persist.Restored.{
  bool_value, other_value, AnyEntry, set_state, bool_entries,
  set_state-load_persistent_bool_entries,
}
use captcha_protect.Persist.{load_persistent_bool_entries}
use captcha_protect.Cache.Memory.{memory_cache}

log_runs :
    (parse_http_methods (codes "GET" ∷ codes "get" ∷ []) ≡ codes "get" ∷ [])
    × (parse_log_level (codes "warn") ≡ (warning, true))
    × (parse_log_level (codes "") ≡ (info, false))
unfolding parse_http_methods parse_log_level captcha_protect.Base.any captcha_protect.Base.text_eq
log_runs = (refl, refl, refl)

abbrev some_bytes : List ℕ
some_bytes = 1 ∷ 2 ∷ 3 ∷ 4 ∷ 5 ∷ 6 ∷ 7 ∷ 8 ∷ 9 ∷ 10 ∷ 11 ∷ 12 ∷ 13 ∷ 14 ∷ 15 ∷ 16 ∷ []

-- The same but for bits that are replaced.
abbrev other_bytes : List ℕ
other_bytes = 1 ∷ 2 ∷ 3 ∷ 4 ∷ 5 ∷ 6 ∷ 0xf7 ∷ 8 ∷ 0xc9 ∷ 10 ∷ 11 ∷ 12 ∷ 13 ∷ 14 ∷ 15 ∷ 16 ∷ []

abbrev token : Text
token = codes "01020304-0506-4708-890a-0b0c0d0e0f10"

drawn : (random_uuid (some some_bytes) ≡ some token) × (random_uuid (some other_bytes) ≡ some token)
unfolding random_uuid
drawn = (refl, refl)

random_uuid-inj_example : kept some_bytes ≡ kept other_bytes
random_uuid-inj_example =
    random_uuid-inj some_bytes other_bytes {token = token} (omega arith) (omega arith) drawn.0
      drawn.1

-- An entry whose value is no Boolean is not loaded.
set_state_run :
    set_state memory_cache 5
      ((codes "a", record { value = bool_value true; expiration = 0 })
        ∷ (codes "b", record { value = other_value; expiration = 0 })
        ∷ [])
      (memory_cache.empty 0)
    ≡ memory_cache.set (memory_cache.empty 0) 5 (codes "a") true 0xffff_ffff_ffff_ffff
unfolding captcha_protect.Persist.Restored.load_cache_entries
    captcha_protect.Persist.Restored.convert_bool_value captcha_protect.Persist.calculate_duration
set_state_run = refl
