-- ===== src/Verify/Sound.antt =====
-- No visitor passes without the provider's word.
use captcha_protect.Base.{
  ℕ, ◌-◌, ◌≤◌, ◌≡◌, ◌≢◌, ◌⊎◌, ap, ◌∙◌, no_text_eq, refl, inl, inr, Bool, true, false, Option, none,
  some, Text, [], ◌++◌, codes, text_eq, text_eq_iff, arith,
}
use captcha_protect.Base.{Bool-cases, Option-cases}
use captcha_protect.Request.{Request}
use captcha_protect.Cache.{Cache, default_expiration}
use captcha_protect.Circuit.{CaptchaConfig, Breaker, get_active_captcha_config}
use captcha_protect.Middleware.{Setup, State, Response, redirect}
use captcha_protect.Verify.{
  CaptchaResponse, Outside, Body, Reply, bad_request, no_answer, answer, Check, failed, verdict,
}
use captcha_protect.Verify.{
  turnstile_accepts, uses_turnstile_test_keys, captcha_validation_hostname, is_fresh,
  turnstile_test_hostname, max_captcha_challenge_age,
}
use captcha_protect.Verify.{
  validation_body, answer_verdict, external_check, conclude, verify_challenge_page,
}

-- The visitor is sent on.
abbrev pub is_redirect : Response → Bool
is_redirect (redirect status location cookie) = true
is_redirect _ = false

-- What Turnstile must have said beyond success: the hostname of the request, or that of its test
-- keys where both keys are test keys, and a time at most five minutes ago.
abbrev pub TurnstileAnswer : Setup → Outside → ℕ → Request → CaptchaResponse → Type 0
TurnstileAnswer setup out now req r =
    ((r.hostname ≡ captcha_validation_hostname req)
      ⊎ ((uses_turnstile_test_keys setup.config ≡ true) × (r.hostname ≡ turnstile_test_hostname)))
    × (t : ℕ) × (out.parse_time r.challenge_ts ≡ some t)
    × (now - t ≤ max_captcha_challenge_age)

fresh_age : (now t : ℕ) → is_fresh now t ≡ true → now - t ≤ max_captcha_challenge_age
unfolding is_fresh
fresh_age now t h = ground arith

turnstile_accepts_sound :
    (setup : Setup) (out : Outside) (now : ℕ) (req : Request) (r : CaptchaResponse)
    → turnstile_accepts setup out now req r ≡ true
    → TurnstileAnswer setup out now req r
unfolding turnstile_accepts
turnstile_accepts_sound setup out now req r h =
    let same = text_eq_iff r.hostname (captcha_validation_hostname req) in
    let test = text_eq_iff r.hostname turnstile_test_hostname in
    elim (Option-cases (out.parse_time r.challenge_ts)) [
      | inl bad ↦ ground arith
      | inr (t, found) ↦ (
        elim (Bool-cases (text_eq r.hostname (captcha_validation_hostname req))) [
          | inl e ↦ inl (same.0 e)
          | inr e ↦ inr (ground arith, test.0 (ground arith))
        ],
        t,
        found,
        fresh_age now t (ground arith),
      )
    ]

answer_verdict_sound :
    (setup : Setup) (out : Outside) (now : ℕ) (req : Request) (active : CaptchaConfig)
    (decoded : Option CaptchaResponse)
    → answer_verdict setup out now req active decoded ≡ verdict true
    → (r : CaptchaResponse) × (decoded ≡ some r)
      × (r.success ≡ true)
      × (active.key ≡ codes "cf-turnstile" → TurnstileAnswer setup out now req r)
unfolding answer_verdict
answer_verdict_sound setup out now req active none h = cc
answer_verdict_sound setup out now req active (some r) h = (
  r,
  refl,
  ground arith,
  λ e.
      turnstile_accepts_sound setup out now req r
        (let same = (text_eq_iff active.key (codes "cf-turnstile")).1 e in ground arith),
)

-- No verdict comes without an answer.
abbrev is_answer : Reply → Bool
is_answer (answer status decoded) = true
is_answer _ = false

Reply-cases :
    (r : Reply)
    → (is_answer r ≡ false)
      ⊎ ((status : ℕ) × (decoded : Option CaptchaResponse) × (r ≡ answer status decoded))
Reply-cases bad_request = inl refl
Reply-cases no_answer = inl refl
Reply-cases (answer status decoded) = inr (status, decoded, refl)

external_check_sound :
    (setup : Setup) (out : Outside) (now : ℕ) (req : Request) (ip : Text) (active : CaptchaConfig)
    (response : Text) (b : Breaker)
    → (external_check setup out now req ip active response b).0 ≡ verdict true
    → (body : Body) × (status : ℕ) × (decoded : Option CaptchaResponse) × (validation_body setup out
          active response ip
        ≡ some body)
      × (out.post active.validate body ≡ answer status decoded)
      × (answer_verdict setup out now req active decoded ≡ verdict true)
unfolding external_check
external_check_sound setup out now req ip active response b h =
    elim (Option-cases (validation_body setup out active response ip)) [
      | inl lost ↦ ground arith
      | inr (body, built) ↦ elim (Reply-cases (out.post active.validate body)) [
        | inl bad ↦ ground arith
        | inr (status, decoded, came) ↦
            (body, status, decoded, built, came, rw (built, came, external_check) at h)
      ]
    ]

pub conclude_sound :
    (C : Cache) (setup : Setup) (out : Outside) (now : ℕ) (req : Request) (ip : Text) (exp : ℕ)
    (check : Check) (st : State C)
    → is_redirect (conclude C setup out now req ip exp check st).0 ≡ true
    → check ≡ verdict true
unfolding conclude
conclude_sound C setup out now req ip exp failed st h = cc
conclude_sound C setup out now req ip exp (verdict true) st h = refl
conclude_sound C setup out now req ip exp (verdict false) st h = cc

-- A visitor whom an external provider checks is sent on only if the provider answered with
-- success, and Turnstile also with the right hostname and a time at most five minutes ago.
pub verify_challenge_page_sound :
    (C : Cache) (setup : Setup) (out : Outside) (now : ℕ) (req : Request) (st : State C) (ip : Text)
    → let active = get_active_captcha_config setup.config setup.captcha_config st.breaker in
      active.validate ≢ codes "internal"
      → is_redirect (verify_challenge_page C setup out now req st ip).0 ≡ true
      → (body : Body) × (status : ℕ) × (r : CaptchaResponse) × (validation_body setup out active
            (req.form_value (active.key ++ codes "-response"))
            ip
          ≡ some body)
        × (out.post active.validate body ≡ answer status (some r))
        × (r.success ≡ true)
        × (active.key ≡ codes "cf-turnstile" → TurnstileAnswer setup out now req r)
unfolding verify_challenge_page
verify_challenge_page_sound C setup out now req st ip external sent =
    let active = get_active_captcha_config setup.config setup.captcha_config st.breaker in
    let response = req.form_value (active.key ++ codes "-response") in
    let not_internal : text_eq active.validate (codes "internal") ≡ false =
      no_text_eq active.validate (codes "internal") external in
    elim (Bool-cases (text_eq response [])) [
      | inl e ↦ cc (rw e at sent)
      | inr e ↦
          let ok_check =
            conclude_sound C setup out now req ip default_expiration _ _
              (rw (e, not_internal) at sent) in
          let (body, status, decoded, built, came, ok) =
            external_check_sound setup out now req ip active response st.breaker ok_check in
          let (r, d, success, turnstile) =
            answer_verdict_sound setup out now req active decoded ok in
          (body, status, r, built, came ∙ ap (answer status) d, success, turnstile)
    ]
