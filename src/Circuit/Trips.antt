-- ===== src/Circuit/Trips.antt =====
-- When the breaker is open, over every sequence of health checks and provider failures.
use captcha_protect.Base.{ℕ, suc, ◌+◌, ◌<◌, ◌≤◌, ◌≡◌, ◌↔◌, refl, Bool, true, false, arith}
use captcha_protect.Base.{List, [], ◌∷◌, length, text_eq, if◌then◌else◌, leb, IsNonneg, u64_mod}
use captcha_protect.Config.{Config}
use captcha_protect.Circuit.{
  CaptchaConfig, Breaker, Probe, bad_request, no_answer, answer, poj_config,
}
use captcha_protect.Circuit.{circuit_open, circuit_closed, new_breaker, is_healthy_status}
use captcha_protect.Circuit.{get_active_captcha_config, has_fallback_provider, perform_health_check}
use captcha_protect.Circuit.{record_health_check_failure}

-- What can happen to the breaker: a tick of the health check loop with the answer it gets, or a
-- request for which the provider's verification endpoint answers with a server error.
pub data Event : Type 0 where
  tick : Probe → Event
  provider_error : Event

unfoldable pub apply_event : Config → CaptchaConfig → Event → Breaker → Breaker
apply_event c captcha (tick p) b = perform_health_check c captcha (λ _. p) b
apply_event c captcha provider_error b = record_health_check_failure c b

unfoldable pub apply_events : Config → CaptchaConfig → List Event → Breaker → Breaker
apply_events c captcha [] b = b
apply_events c captcha (e ∷ es) b = apply_events c captcha es (apply_event c captcha e b)

-- Whether an event is a successful health check.
abbrev pub is_success : Event → Bool
is_success (tick (answer status)) = is_healthy_status status
is_success (tick bad_request) = false
is_success (tick no_answer) = false
is_success provider_error = false

-- The failures since the last success, if there were `n` before.
abbrev pub failures_since : ℕ → List Event → ℕ
failures_since n [] = n
failures_since n (e ∷ es) = failures_since (if is_success e then 0 else n + 1) es

-- The breaker with a count of failures.
abbrev pub breaker_at : ℕ → ℕ → Breaker
breaker_at threshold n = record {
  circuit_state = if leb threshold n then circuit_open else circuit_closed;
  health_check_failure_count = n;
}

-- The signed test of the threshold, on a pattern.
threshold_range :
    (c : Config)
    → has_fallback_provider c ≡ true
    → c.failure_threshold < u64_mod
    → (0 < c.failure_threshold) × IsNonneg c.failure_threshold
unfolding has_fallback_provider
threshold_range c h word = (ground arith, ground arith)

apply_event_at :
    (c : Config) (captcha : CaptchaConfig) (e : Event) (n : ℕ)
    → 0 < c.failure_threshold
    → IsNonneg c.failure_threshold
    → IsNonneg (n + 1)
    → apply_event c captcha e (breaker_at c.failure_threshold n)
      ≡ breaker_at c.failure_threshold (if is_success e then 0 else n + 1)
unfolding apply_event perform_health_check
apply_event_at c captcha (tick (answer status)) n positive small fits = ground arith
apply_event_at c captcha _ n positive small fits = ground arith

next_count_fits :
    (success : Bool) (n rest : ℕ)
    → IsNonneg (n + suc rest)
    → IsNonneg ((if success then 0 else n + 1) + rest)
next_count_fits true n rest h = omega arith
next_count_fits false n rest h = omega arith

apply_events_at :
    (c : Config) (captcha : CaptchaConfig) (es : List Event) (n : ℕ)
    → 0 < c.failure_threshold
    → IsNonneg c.failure_threshold
    → IsNonneg (n + length es)
    → apply_events c captcha es (breaker_at c.failure_threshold n)
      ≡ breaker_at c.failure_threshold (failures_since n es)
unfolding apply_events
apply_events_at c captcha [] n positive small fits = refl
apply_events_at c captcha (e ∷ es) n positive small fits =
    rw (apply_event_at c captcha e n positive small (omega arith))
      (apply_events_at c captcha es _ positive small (next_count_fits (is_success e) n _ fits))

apply_events_from_new :
    (c : Config) (captcha : CaptchaConfig) (es : List Event)
    → 0 < c.failure_threshold
    → IsNonneg c.failure_threshold
    → IsNonneg (length es)
    → apply_events c captcha es new_breaker ≡ breaker_at c.failure_threshold (failures_since 0 es)
apply_events_from_new c captcha es positive small fits =
    let start : new_breaker ≡ breaker_at c.failure_threshold 0 = ground arith in
    rw start (apply_events_at c captcha es 0 positive small (omega arith))

-- With a positive threshold that fits in 63 bits, after fewer than 2^63 events the failure count
-- is the number of failures since the last successful check, and the circuit is open exactly when
-- that number has reached the threshold.
pub circuit_open_iff :
    (c : Config) (captcha : CaptchaConfig) (es : List Event)
    → 0 < c.failure_threshold
    → IsNonneg c.failure_threshold
    → IsNonneg (length es)
    → let b = apply_events c captcha es new_breaker in
      (b.health_check_failure_count ≡ failures_since 0 es)
      × ((b.circuit_state ≡ circuit_open) ↔ (c.failure_threshold ≤ failures_since 0 es))
circuit_open_iff c captcha es positive small fits =
    rw (apply_events_from_new c captcha es positive small fits) (refl, (ground arith, ground arith))

-- Where a fallback is enabled and the threshold is a 64-bit number, after fewer than 2^63 events
-- visitors get the proof-of-javascript provider if the failures since the last success have
-- reached the threshold, and the configured one otherwise.
pub get_active_captcha_config-events :
    (c : Config) (captcha : CaptchaConfig) (es : List Event)
    → has_fallback_provider c ≡ true
    → c.failure_threshold < u64_mod
    → IsNonneg (length es)
    → get_active_captcha_config c captcha (apply_events c captcha es new_breaker)
      ≡ (if leb c.failure_threshold (failures_since 0 es) then poj_config else captcha)
unfolding get_active_captcha_config text_eq
get_active_captcha_config-events c captcha es fallback word fits =
    let (positive, small) = threshold_range c fallback word in
    rw (apply_events_from_new c captcha es positive small fits, fallback) (ground arith)
