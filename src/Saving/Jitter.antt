-- ===== src/Saving/Jitter.antt =====
-- `stateSaveJitter` and `fallbackStateSaveJitter` of main.go. Durations are in nanoseconds.
use captcha_protect.Base.{
  ℕ, ◌+◌, ◌*◌, ◌/◌, ◌%◌, ◌≤◌, ◌<◌, ◌≡◌, ◌∷◌, ◌++◌, Option, none, some, Text, arith, if◌then◌else◌,
  sle64, add64, Option-cases, inl, inr,
}
use native.Mathlib.Nat.{mod-lt}
use captcha_protect.Persist.{format_int}
use captcha_protect.Session.{fnv64a}
use captcha_protect.Saving.{state_save_interval}
use captcha_protect.Verify.{second}

-- `StateSaveJitter`
abbrev pub max_state_save_jitter : ℕ
max_state_save_jitter = 2 * second

abbrev pub millisecond : ℕ
millisecond = 1_000_000

-- From the name of the host, the number of the process and the time.
unfoldable pub fallback_state_save_jitter : ℕ → Text → ℕ → ℕ → ℕ
fallback_state_save_jitter max_millis hostname pid now =
    if sle64 max_millis 0
    then 0
    else (let hash =
          fnv64a 14695981039346656037
            (hostname ++ (b':' ∷ (format_int pid ++ (b':' ∷ format_int now)))) in
        hash % max_millis * millisecond)

-- `random` is what the random source draws below a maximum, or `none` where it fails.
unfoldable pub state_save_jitter : (ℕ → Option ℕ) → Text → ℕ → ℕ → ℕ
state_save_jitter random hostname pid now =
    let max_jitter = max_state_save_jitter / millisecond in
    if sle64 max_jitter 0 then 0 else elim (random max_jitter) [
      | none ↦ fallback_state_save_jitter max_jitter hostname pid now
      | some jitter ↦ jitter * millisecond
    ]

-- The interval of the save loop.
unfoldable pub save_interval : (ℕ → Option ℕ) → Text → ℕ → ℕ → ℕ
save_interval random hostname pid now =
    add64 state_save_interval (state_save_jitter random hostname pid now)

fallback_bounds :
    (max_millis : ℕ) (hostname : Text) (pid now : ℕ)
    → 0 < max_millis
    → fallback_state_save_jitter max_millis hostname pid now + millisecond
      ≤ max_millis * millisecond
unfolding fallback_state_save_jitter
fallback_bounds max_millis hostname pid now positive =
    let hash =
      fnv64a 14695981039346656037
        (hostname ++ (b':' ∷ (format_int pid ++ (b':' ∷ format_int now)))) in
    let below : hash % max_millis < max_millis = mod-lt hash positive in ground arith

-- With a random source that keeps below its maximum, or fails, the interval between two saves is at
-- least a minute and less than a minute and two seconds, on every host and in every process.
pub save_interval_bounds :
    (random : ℕ → Option ℕ) (hostname : Text) (pid now : ℕ)
    → ((max jitter : ℕ) → random max ≡ some jitter → jitter < max)
    → (state_save_interval ≤ save_interval random hostname pid now)
      × (save_interval random hostname pid now < state_save_interval + max_state_save_jitter)
unfolding save_interval state_save_jitter
save_interval_bounds random hostname pid now draws = elim (Option-cases (random 2000)) [
  | inl e ↦ (let bounds = fallback_bounds 2000 hostname pid now (omega arith) in rw e (omega arith))
  | inr (jitter, e) ↦ (let small = draws 2000 jitter e in rw e (omega arith))
]
