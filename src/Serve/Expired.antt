-- ===== src/Serve/Expired.antt =====
-- A verification does not outlive its time.
use captcha_protect.Base.{
  ℕ, ◌+◌, ◌*◌, ◌<◌, ◌≡◌, ◌≢◌, ◌↔◌, refl, no_text_eq, Bool, true, false, none, List, Text, codes,
  text_eq, any, arith, if◌then◌else◌, IsNonneg,
}
use captcha_protect.Request.{Request, user_agent}
use captcha_protect.Cache.{Cache, IsLawful, default_expiration}
use captcha_protect.Cache.Expiry.{get-set_for_expired, get-set_expired}
use captcha_protect.ClientIp.{is_ip_excluded}
use captcha_protect.Routes.{is_good_user_agent}
use captcha_protect.Middleware.{Setup, State}
use captcha_protect.Access.{should_apply, is_good_bot, verification_key, route_is_protected}
use captcha_protect.Access.Challenged.{should_apply_iff}
use captcha_protect.Verify.{Outside, second, verify_challenge_page}
use captcha_protect.Verify.Sound.{is_redirect}
use captcha_protect.Verify.Effects.{verify_challenge_page_ip}
use captcha_protect.Serve.Verified.{is_fallback, granted}

module _ {C : Cache} (L : IsLawful C) where
  pub lifetime_over :
      (s : C.State) (now later : ℕ) (k : Text) (fallback : Bool)
      → let exp = if fallback then 3600 * second else default_expiration in
        0 < C.default s
        → IsNonneg (now + (if fallback then 3600 * second else C.default s))
        → IsNonneg later
        → now + (if fallback then 3600 * second else C.default s) < later
        → C.get (C.set s now k true exp) later k ≡ none
  lifetime_over s now later k true positive fits fits' late =
      get-set_for_expired L s now later k true (3600 * second) (omega arith) fits fits' late
  lifetime_over s now later k false positive fits fits' late =
      get-set_expired L s now later k true positive fits fits' late

module _ {C : Cache} (L : IsLawful C) (lookup : Text → List Text → Bool) (setup : Setup)
    (out : Outside) (now : ℕ) (st : State C) (req : Request) (ip : Text) where
  -- In the mode for addresses, after the time of a verification has passed, a visitor who was
  -- verified is challenged again like any other: exactly where the method is protected, the
  -- address is not exempt and no good bot's, the user agent is not exempt, and the path is
  -- protected. The cache meets its laws and has a positive default lifetime, and the times fit in
  -- 63 bits.
  pub should_apply_expired :
      (later : ℕ) (next : Request)
      → setup.config.verification_mode ≢ codes "session"
      → is_redirect (verify_challenge_page C setup out now req st ip).0 ≡ true
      → 0 < C.default st.verified_cache
      → IsNonneg (now + granted setup st)
      → IsNonneg later
      → now + granted setup st < later
      → let st' = (verify_challenge_page C setup out now req st ip).1 in
        ((should_apply C lookup setup later st' next ip).0 ≡ true) ↔ (
          (any (λ method. text_eq method next.method) setup.config.protect_http_methods ≡ true)
          × (is_ip_excluded ip setup.exempt_ips ≡ false)
          × ((is_good_bot C lookup setup later st' next ip).0 ≡ false)
          × (is_good_user_agent setup.config (user_agent next) ≡ false)
          × (route_is_protected setup next.url_path ≡ true))
  unfolding verification_key
  should_apply_expired later next mode sent positive fits fits' late =
      let st' = (verify_challenge_page C setup out now req st ip).1 in
      let (_, cached, _) = verify_challenge_page_ip C setup out now req st ip mode sent in
      let key : verification_key setup next ip ≡ ip =
        rw (no_text_eq setup.config.verification_mode (codes "session") mode) refl in
      let gone : C.get st'.verified_cache later (verification_key setup next ip) ≡ none =
        rw (key, cached)
          (lifetime_over L st.verified_cache now later ip (is_fallback setup st) positive fits fits'
            late) in
      let (to, from) = should_apply_iff C lookup setup later st' next ip in
      (
        λ h. let (a, _, b, c, d, e) = to h in (a, b, c, d, e),
        λ (a, b, c, d, e). from (a, gone, b, c, d, e),
      )
