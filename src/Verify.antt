-- ===== src/Verify.antt =====
-- `verifyChallengePage` of main.go, with `captchaValidationHostname` and `usesTurnstileTestKeys`.
pub mod Sound
pub mod Effects
use captcha_protect.Base.{
  ℕ, ◌+◌, ◌-◌, ◌*◌, ◌/◌, ◌%◌, Bool, true, false, not, ◌&&◌, ◌||◌, List, [], ◌∷◌, ◌++◌, any,
}
use captcha_protect.Base.{
  Option, none, some, Text, codes, text_eq, if◌then◌else◌, ◌==◌, ltb, leb, add64, sub64, i64_half,
  u64_mod,
}
use captcha_protect.Net.{split_host_port}
use captcha_protect.Config.{Config}
use captcha_protect.Request.{Request}
use captcha_protect.Cache.{Cache, default_expiration}
use captcha_protect.Circuit.{
  CaptchaConfig, Breaker, is_open, get_active_captcha_config, record_health_check_failure,
}
use captcha_protect.Destination.{Url, normalize_destination}
use captcha_protect.Session.{random_uuid, session_cookie_name}
use captcha_protect.Middleware.{Setup, State, Response, http_error, redirect, Cookie}

-- `captchaResponse`, as the provider's answer is decoded.
pub record CaptchaResponse : Type 0 where
  pub success : Bool
  pub hostname : Text
  pub challenge_ts : Text

-- The body that is sent to the provider, before it is encoded: JSON for Cap, a form otherwise.
pub data Body : Type 0 where
  json form : List (Text × Text) → Body

-- What comes of sending it: no request could be made, no answer came, or an answer with a status
-- came, whose body is decoded or not.
pub data Reply : Type 0 where
  bad_request no_answer : Reply
  answer : ℕ → Option CaptchaResponse → Reply

-- What the handler takes from outside: the provider, two draws of sixteen random bytes, and the
-- library's functions on URLs and times (a time in nanoseconds, `none` for a text that does not
-- parse).
pub record Outside : Type 0 where
  pub post : Text → Body → Reply
  pub idempotency_bytes : Option (List ℕ)
  pub session_bytes : Option (List ℕ)
  pub parse_time : Text → Option ℕ
  pub parse_url : Text → Option Url
  pub path_unescape : Text → Option Text

abbrev pub second : ℕ
second = 1_000_000_000

abbrev pub max_captcha_challenge_age : ℕ
max_captcha_challenge_age = 300 * second

abbrev pub turnstile_test_hostname : Text
turnstile_test_hostname = codes "example.com"

abbrev pub turnstile_test_site_keys : List Text
turnstile_test_site_keys =
    codes "1x00000000000000000000AA"
    ∷ codes "2x00000000000000000000AB"
    ∷ codes "1x00000000000000000000BB"
    ∷ codes "2x00000000000000000000BB"
    ∷ codes "3x00000000000000000000FF"
    ∷ []

abbrev pub turnstile_test_secret_keys : List Text
turnstile_test_secret_keys =
    codes "1x0000000000000000000000000000000AA"
    ∷ codes "2x0000000000000000000000000000000AA"
    ∷ codes "3x0000000000000000000000000000000AA"
    ∷ []

unfoldable pub uses_turnstile_test_keys : Config → Bool
uses_turnstile_test_keys c =
    any (λ k. text_eq k c.site_key) turnstile_test_site_keys
    && any (λ k. text_eq k c.secret_key) turnstile_test_secret_keys

unfoldable pub captcha_validation_hostname : Request → Text
captcha_validation_hostname req =
    let host = if text_eq req.host [] then req.url_host else req.host in
    elim (split_host_port host) [ some hostname ↦ hostname | none ↦ host ]

-- The age of a challenge, at least 0, is at most five minutes.
unfoldable pub is_fresh : ℕ → ℕ → Bool
is_fresh now challenge_time =
    let age = if ltb now challenge_time then 0 else now - challenge_time in
    not (ltb max_captcha_challenge_age age)

-- The tests of a successful answer from Turnstile: its hostname and its time.
unfoldable pub turnstile_accepts : Setup → Outside → ℕ → Request → CaptchaResponse → Bool
turnstile_accepts setup out now req r =
    let skip =
      uses_turnstile_test_keys setup.config && text_eq r.hostname turnstile_test_hostname in
    if not skip && not (text_eq r.hostname (captcha_validation_hostname req))
    then false
    else elim (out.parse_time r.challenge_ts) [ none ↦ false | some t ↦ is_fresh now t ]

-- The request for the provider, or `none` where its key could not be made.
unfoldable pub validation_body : Setup → Outside → CaptchaConfig → Text → Text → Option Body
validation_body setup out active response ip =
    let secret : Text × Text = (codes "secret", setup.config.secret_key) in
    let answer : Text × Text = (codes "response", response) in
    if text_eq active.key (codes "cap")
    then some (json (secret ∷ answer ∷ []))
    else if text_eq active.key (codes "cf-turnstile")
    then elim (random_uuid out.idempotency_bytes) [
      | none ↦ none
      | some key ↦
          some
            (form (secret ∷ answer ∷ (codes "remoteip", ip) ∷ (codes "idempotency_key", key) ∷ []))
    ]
    else some (form (secret ∷ answer ∷ []))

-- What the external check comes to: an internal error, or the verdict `success`.
pub data Check : Type 0 where
  failed : Check
  verdict : Bool → Check

unfoldable pub answer_verdict :
    Setup → Outside → ℕ → Request → CaptchaConfig → Option CaptchaResponse → Check
answer_verdict setup out now req active none = failed
answer_verdict setup out now req active (some r) = verdict (
    if r.success && text_eq active.key (codes "cf-turnstile")
    then turnstile_accepts setup out now req r
    else r.success)

-- A status below 200 or from 500 on counts as a failure of the provider.
abbrev pub is_server_error : ℕ → Bool
is_server_error status = ltb status 200 || leb 500 status

unfoldable pub external_check :
    Setup → Outside → ℕ → Request → Text → CaptchaConfig → Text → Breaker → Check × Breaker
external_check setup out now req ip active response b =
    elim (validation_body setup out active response ip) [
      | none ↦ (failed, b)
      | some body ↦ elim (out.post active.validate body) [
        | bad_request ↦ (failed, b)
        | no_answer ↦ (failed, b)
        | answer status decoded ↦ (
          answer_verdict setup out now req active decoded,
          if is_server_error status then record_health_check_failure setup.config b else b,
        )
      ]
    ]

-- `int(d / time.Second)`: the division of a signed duration rounds towards 0.
abbrev pub whole_seconds : ℕ → ℕ
whole_seconds d = if ltb d i64_half then d / second else sub64 0 (sub64 0 d / second)

-- `markStateDirty`
unfoldable pub mark_state_dirty : {C : Cache} → Config → State C → State C
mark_state_dirty c st =
    if text_eq c.persistent_state_file []
    then st
    else record st { state_dirty = add64 st.state_dirty 1 }

abbrev pub session_cookie : Setup → Request → Text → ℕ → Cookie
session_cookie setup req token exp =
    let duration =
      if not (exp == default_expiration) then exp else setup.config.window * second % u64_mod in
    record {
      cookie_name = session_cookie_name setup.name;
      cookie_value = token;
      cookie_path = codes "/";
      max_age = whole_seconds duration;
      http_only = true;
      secure = req.tls || text_eq (req.header (codes "X-Forwarded-Proto")) (codes "https");
      same_site_lax = true;
    }

module _ (C : Cache) (setup : Setup) (out : Outside) (now : ℕ) (req : Request) where
  -- The key is remembered, and the visitor is sent on.
  unfoldable pub remember : Text → Option Cookie → ℕ → State C → Response × State C
  remember key cookie exp st = (
    redirect 302
        (normalize_destination out.parse_url out.path_unescape
          (req.form_value (codes "destination")))
        cookie,
    mark_state_dirty setup.config
        (record st { verified_cache = C.set st.verified_cache now key true exp }),
  )

  unfoldable pub accept : Text → ℕ → State C → Response × State C
  accept ip exp st =
      if text_eq setup.config.verification_mode (codes "session")
      then elim (random_uuid out.session_bytes) [
        | none ↦ (http_error 500 (codes "Internal error"), st)
        | some token ↦
            remember (codes "session:" ++ token) (some (session_cookie setup req token exp)) exp st
      ]
      else remember ip none exp st

  unfoldable pub conclude : Text → ℕ → Check → State C → Response × State C
  conclude ip exp failed st = (http_error 500 (codes "Internal error"), st)
  conclude ip exp (verdict true) st = accept ip exp st
  conclude ip exp (verdict false) st = (http_error 403 (codes "Validation failed"), st)

  unfoldable pub verify_challenge_page : State C → Text → Response × State C
  verify_challenge_page st ip =
      let active = get_active_captcha_config setup.config setup.captcha_config st.breaker in
      let response = req.form_value (active.key ++ codes "-response") in
      if text_eq response []
      then (http_error 400 (codes "Bad request"), st)
      else if text_eq active.validate (codes "internal")
      then accept ip
          (if is_open st.breaker.circuit_state then 3600 * second else default_expiration) st
      else (let (check, b) = external_check setup out now req ip active response st.breaker in
          conclude ip default_expiration check (record st { breaker = b }))
