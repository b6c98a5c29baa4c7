-- ===== src/Tests/Visits/Verifying.antt =====
-- Tests of challenges that are answered, with the theorems at concrete data.
use captcha_protect.Base.{ℕ, ◌*◌, ◌≡◌, refl, some, true, false, codes, arith}
use captcha_protect.Cache.Memory.{memory_cache}
use captcha_protect.Circuit.{turnstile_config}
use captcha_protect.Middleware.{http_error}
use captcha_protect.Verify.{
  Body, answer, CaptchaResponse, second, validation_body, verify_challenge_page,
}
use captcha_protect.Verify.Sound.{is_redirect, TurnstileAnswer, verify_challenge_page_sound}
use captcha_protect.Verify.Effects.{verify_challenge_page_refused}
use captcha_protect.Tests.Visits.{
  setup, start, solution, verdict_of, accepting, refusing, now, visitor, verify, solved,
}

late :
    (verify_challenge_page memory_cache setup accepting (311 * second) solution start visitor).0
    ≡ http_error 403 (codes "Validation failed")
unfolding verify
late = refl

refused :
    is_redirect (verify_challenge_page memory_cache setup refusing now solution start visitor).0
    ≡ false
unfolding verify
refused = refl

verify_challenge_page_sound_example :
    (body : Body) × (status : ℕ) × (r : CaptchaResponse) × (validation_body setup accepting
        turnstile_config
        (codes "token")
        visitor
      ≡ some body)
    × (answer 200 (some (verdict_of true)) ≡ answer status (some r))
    × (r.success ≡ true)
    × (codes "cf-turnstile" ≡ codes "cf-turnstile" → TurnstileAnswer setup accepting now solution r)
unfolding verify
verify_challenge_page_sound_example =
    verify_challenge_page_sound memory_cache setup accepting now solution start visitor
      (λ e. ground arith) solved

verify_challenge_page_refused_example :
    (verify_challenge_page memory_cache setup refusing now solution start visitor).1
    ≡ record start {
      breaker =
          (verify_challenge_page memory_cache setup refusing now solution start visitor).1.breaker;
    }
verify_challenge_page_refused_example =
    verify_challenge_page_refused memory_cache setup refusing now solution start visitor refused
