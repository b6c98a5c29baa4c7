-- ===== src/Serve/Verified.antt =====
-- A visitor who has passed the challenge reaches the site.
use captcha_protect.Base.{
  ℕ, ◌+◌, ◌*◌, ◌≤◌, ◌<◌, ◌≡◌, ◌≢◌, ◌∙◌, refl, sym, no_text_eq, text_eq_iff, Bool, true, false, ◌&&◌,
  some, List, Text, ◌++◌, codes, text_eq, arith, if◌then◌else◌, IsNonneg,
}
use captcha_protect.Request.{Request}
use captcha_protect.Cache.{Cache, IsLawful, default_expiration}
use captcha_protect.Cache.Expiry.{get-set_for, get-set_default}
use captcha_protect.Circuit.{is_open, get_active_captcha_config}
use captcha_protect.ClientIp.{get_client_ip}
use captcha_protect.Session.{session_cookie_name}
use captcha_protect.Middleware.{Setup, State, pass, redirect, Cookie}
use captcha_protect.Access.{should_apply, verification_key}
use captcha_protect.Verify.{Outside, second, verify_challenge_page, session_cookie}
use captcha_protect.Verify.Sound.{is_redirect}
use captcha_protect.Verify.Effects.{
  lifetime, verify_challenge_page_ip, verify_challenge_page_session,
}
use captcha_protect.Serve.{endpoint, site, serve_site, serve_at, serve_http}

-- A request that carries the cookie of a challenge carries the token that was remembered.
pub carried_token :
    (C : Cache) (setup : Setup) (out : Outside) (now : ℕ) (st : State C) (req : Request) (ip : Text)
    (next : Request) (c : Cookie) (status : ℕ) (location : Text)
    → setup.config.verification_mode ≡ codes "session"
    → (verify_challenge_page C setup out now req st ip).0 ≡ redirect status location (some c)
    → next.cookie c.cookie_name ≡ some c.cookie_value
    → (token : Text) × ((verify_challenge_page C setup out now req st ip).1.verified_cache
        ≡ C.set st.verified_cache now
            (codes "session:" ++ token)
            true
            (lifetime C setup out now req st ip))
      × (next.cookie (session_cookie_name setup.name) ≡ some token)
carried_token C setup out now st req ip next c status location mode sent carried =
    let (token, drawn, answered, cached) =
      verify_challenge_page_session C setup out now req st ip mode (rw sent refl) in
    let baked : session_cookie setup req token (lifetime C setup out now req st ip) ≡ c =
      cc (sym answered ∙ sent) in
    let held : next.cookie (session_cookie_name setup.name) ≡ some token =
      rw (← baked) at carried in
    (token, cached, held)

module _ {C : Cache} (L : IsLawful C) where
  pub lifetime_live :
      (s : C.State) (now later : ℕ) (k : Text) (fallback : Bool)
      → let exp = if fallback then 3600 * second else default_expiration in
        0 < C.default s
        → IsNonneg (now + (if fallback then 3600 * second else C.default s))
        → later ≤ now + (if fallback then 3600 * second else C.default s)
        → C.get (C.set s now k true exp) later k ≡ some true
  lifetime_live s now later k true positive fits soon =
      get-set_for L s now later k true (3600 * second) (omega arith) fits soon
  lifetime_live s now later k false positive fits soon =
      get-set_default L s now later k true positive fits soon

module _ (C : Cache) (lookup : Text → List Text → Bool) (query_escape : Text → Text)
    (setup : Setup) where
  should_apply_verified :
      (now : ℕ) (st : State C) (req : Request) (ip : Text) {v : Bool}
      → C.get st.verified_cache now (verification_key setup req ip) ≡ some v
      → should_apply C lookup setup now st req ip ≡ (false, st)
  unfolding should_apply
  should_apply_verified now st req ip h = ground arith

  pub site_of_verified :
      (out : Outside) (now : ℕ) (st : State C) (req : Request) {v : Bool}
      → endpoint setup req ≡ site
      → C.get st.verified_cache now
          (verification_key setup req (get_client_ip setup.config setup.exempt_ips req))
        ≡ some v
      → serve_http C lookup query_escape setup out now st req ≡ (pass, st)
  unfolding serve_http serve_at serve_site
  site_of_verified out now st req here found =
      rw (here, should_apply_verified now st req _ found) refl

module _ {C : Cache} (setup : Setup) (st : State C) where
  -- Whether the verification is made under the fallback of an open circuit, or by the proof of
  -- JavaScript while the circuit is open.
  abbrev pub is_fallback : Bool
  is_fallback =
      text_eq (get_active_captcha_config setup.config setup.captcha_config st.breaker).validate
        (codes "internal")
      && is_open st.breaker.circuit_state

  -- The time for which the verification lasts.
  abbrev pub granted : ℕ
  granted = if is_fallback then 3600 * second else C.default st.verified_cache

module _ {C : Cache} (L : IsLawful C) (lookup : Text → List Text → Bool)
    (query_escape : Text → Text) (setup : Setup) (out : Outside) (now : ℕ) (st : State C)
    (req : Request) (ip : Text) where
  -- In the mode for addresses, once a challenge has been passed, every request for the site from
  -- that address reaches it until the verification expires. The cache meets its laws and has a
  -- positive default lifetime, and the time of expiry fits in 63 bits.
  pub serve_http_verified_ip :
      (later : ℕ) (next : Request) (out' : Outside)
      → setup.config.verification_mode ≢ codes "session"
      → is_redirect (verify_challenge_page C setup out now req st ip).0 ≡ true
      → 0 < C.default st.verified_cache
      → IsNonneg (now + granted setup st)
      → later ≤ now + granted setup st
      → endpoint setup next ≡ site
      → get_client_ip setup.config setup.exempt_ips next ≡ ip
      → let st' = (verify_challenge_page C setup out now req st ip).1 in
        serve_http C lookup query_escape setup out' later st' next ≡ (pass, st')
  unfolding verification_key
  serve_http_verified_ip later next out' mode sent positive fits soon here same =
      let (_, cached, _) = verify_challenge_page_ip C setup out now req st ip mode sent in
      let key : verification_key setup next (get_client_ip setup.config setup.exempt_ips next)
          ≡ ip =
        rw (no_text_eq setup.config.verification_mode (codes "session") mode) same in
      site_of_verified C lookup query_escape setup out' later _ next {v = true} here (
        rw (cached, key)
          (lifetime_live L st.verified_cache now later ip (is_fallback setup st) positive fits
            soon))

  -- In the mode for sessions, once a challenge has been passed with a cookie, every request for
  -- the site that carries the cookie reaches it until the verification expires, whatever its
  -- address. The cache meets its laws and has a positive default lifetime, and the time of expiry
  -- fits in 63 bits.
  pub serve_http_verified_session :
      (later : ℕ) (next : Request) (out' : Outside) (c : Cookie) (status : ℕ) (location : Text)
      → setup.config.verification_mode ≡ codes "session"
      → (verify_challenge_page C setup out now req st ip).0 ≡ redirect status location (some c)
      → 0 < C.default st.verified_cache
      → IsNonneg (now + granted setup st)
      → later ≤ now + granted setup st
      → endpoint setup next ≡ site
      → next.cookie c.cookie_name ≡ some c.cookie_value
      → let st' = (verify_challenge_page C setup out now req st ip).1 in
        serve_http C lookup query_escape setup out' later st' next ≡ (pass, st')
  unfolding verification_key
  serve_http_verified_session later next out' c status location mode sent positive fits soon here
        carried =
      let (token, cached, held) =
        carried_token C setup out now st req ip next c status location mode sent carried in
      let in_session = (text_eq_iff setup.config.verification_mode (codes "session")).1 mode in
      site_of_verified C lookup query_escape setup out' later _ next {v = true} here (
        rw (cached, in_session, held)
          (lifetime_live L st.verified_cache now later (codes "session:" ++ token)
            (is_fallback setup st) positive fits soon))
