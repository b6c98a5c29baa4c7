-- ===== src/Circuit.antt =====
-- The circuit breaker of main.go: the captcha providers, `healthCheckURL`,
-- `getActiveCaptchaConfig`, `performHealthCheckContext`, `recordHealthCheckSuccess` and
-- `recordHealthCheckFailure`. Each of them holds the mutex `mu` for its whole body, so a run of
-- the health check loop beside any number of requests is a sequence of whole calls.
pub mod Trips
pub mod Watch
use captcha_protect.Base.{
  ℕ, Bool, true, false, not, ◌&&◌, List, [], ◌∷◌, ◌++◌, Text, codes, text_eq,
}
use captcha_protect.Base.{if◌then◌else◌, ◌==◌, leb, ltb, add64, sle64}
use captcha_protect.Config.{Config}

pub record CaptchaConfig : Type 0 where
  pub js : Text
  pub key : Text
  pub validate : Text
  pub health_url : Text

-- `healthCheckURL`
unfoldable pub health_check_url : CaptchaConfig → Text
health_check_url c = if not (text_eq c.health_url []) then c.health_url else c.js

-- The literal with no field set.
abbrev pub no_captcha_config : CaptchaConfig
no_captcha_config = record { js = []; key = []; validate = []; health_url = [] }

abbrev pub hcaptcha_config : CaptchaConfig
hcaptcha_config = record {
  js = codes "https://hcaptcha.com/1/api.js";
  key = codes "h-captcha";
  validate = codes "https://api.hcaptcha.com/siteverify";
  health_url = [];
}

abbrev pub recaptcha_config : CaptchaConfig
recaptcha_config = record {
  js = codes "https://www.google.com/recaptcha/api.js";
  key = codes "g-recaptcha";
  validate = codes "https://www.google.com/recaptcha/api/siteverify";
  health_url = [];
}

abbrev pub turnstile_config : CaptchaConfig
turnstile_config = record {
  js = codes "https://challenges.cloudflare.com/turnstile/v0/api.js";
  key = codes "cf-turnstile";
  validate = codes "https://challenges.cloudflare.com/turnstile/v0/siteverify";
  health_url = [];
}

abbrev pub poj_config : CaptchaConfig
poj_config = record {
  js = codes "/captcha-protect-poj.js";
  key = codes "poj-captcha";
  validate = codes "internal";
  health_url = [];
}

-- `getCaptchaConfig`
unfoldable pub get_captcha_config : Text → CaptchaConfig
get_captcha_config provider =
    if text_eq provider (codes "hcaptcha")
    then hcaptcha_config
    else if text_eq provider (codes "recaptcha")
    then recaptcha_config
    else if text_eq provider (codes "turnstile")
    then turnstile_config
    else if text_eq provider (codes "poj")
    then poj_config
    else no_captcha_config

pub data CircuitState : Type 0 where
  circuit_closed circuit_open : CircuitState

abbrev pub is_open : CircuitState → Bool
is_open circuit_open = true
is_open circuit_closed = false

-- The fields of `CaptchaProtect` that the breaker changes.
pub record Breaker : Type 0 where
  pub circuit_state : CircuitState
  pub health_check_failure_count : ℕ  -- int

abbrev pub new_breaker : Breaker
new_breaker = record { circuit_state = circuit_closed; health_check_failure_count = 0 }

-- `hasFallbackProvider`, as `NewCaptchaProtect` sets it.
unfoldable pub has_fallback_provider : Config → Bool
has_fallback_provider c =
    not (text_eq c.captcha_provider (codes "poj"))
    && not (sle64 c.period_seconds 0)
    && not (sle64 c.failure_threshold 0)

-- `getActiveCaptchaConfig`; the second argument is the field `captchaConfig`.
unfoldable pub get_active_captcha_config : Config → CaptchaConfig → Breaker → CaptchaConfig
unfolding get_captcha_config
get_active_captcha_config c captcha b =
    if not (has_fallback_provider c)
    then captcha
    else if is_open b.circuit_state
    then get_captcha_config (codes "poj")
    else captcha

unfoldable pub record_health_check_success : Breaker → Breaker
record_health_check_success b =
    if is_open b.circuit_state
    then record { circuit_state = circuit_closed; health_check_failure_count = 0 }
    else record b { health_check_failure_count = 0 }

unfoldable pub record_health_check_failure : Config → Breaker → Breaker
record_health_check_failure c b =
    let count = add64 b.health_check_failure_count 1 in
    if sle64 c.failure_threshold count && not (is_open b.circuit_state)
    then record { circuit_state = circuit_open; health_check_failure_count = count }
    else record b { health_check_failure_count = count }

-- What `http.NewRequest` and `httpClient.Do` give for a HEAD request: no request could be made,
-- no answer came, or an answer with this status came.
pub data Probe : Type 0 where
  bad_request no_answer : Probe
  answer : ℕ → Probe

unfoldable pub is_healthy_status : ℕ → Bool
is_healthy_status status = not (status == 404) && leb 200 status && ltb status 500

-- `performHealthCheckContext`, with the client as a function of the URL.
unfoldable pub perform_health_check : Config → CaptchaConfig → (Text → Probe) → Breaker → Breaker
unfolding health_check_url is_healthy_status record_health_check_success record_health_check_failure
perform_health_check c captcha head b = elim (head (health_check_url captcha)) [
  | bad_request ↦ record_health_check_failure c b
  | no_answer ↦ record_health_check_failure c b
  | answer status ↦
      if is_healthy_status status
      then record_health_check_success b
      else record_health_check_failure c b
]
