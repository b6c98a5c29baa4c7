-- ===== src/Serve/Challenge.antt =====
-- Which requests reach the site, and the challenge that the others get.
use captcha_protect.Base.{
  ℕ, ap, ◌≡◌, ◌↔◌, refl, Bool, true, false, not, none, List, Text, [], ◌++◌, codes, text_eq, arith,
  if◌then◌else◌, Bool-cases, inl, inr,
}
use captcha_protect.Config.{challenge_on_page}
use captcha_protect.Request.{Request}
use captcha_protect.Cache.{Cache, default_expiration}
use captcha_protect.Circuit.{get_active_captcha_config}
use captcha_protect.ClientIp.{get_client_ip}
use captcha_protect.Middleware.{Setup, State, Response, pass, challenge_page, redirect}
use captcha_protect.Access.{should_apply}
use captcha_protect.Access.Challenged.{should_apply_state}
use captcha_protect.Verify.{
  Outside, external_check, Check, failed, verdict, verify_challenge_page, conclude, accept,
  remember,
}
use captcha_protect.Serve.{
  Endpoint, poj_script, cap_script, verification, page, wrong_method, statistics, site, endpoint,
}
use captcha_protect.Serve.{
  challenge, serve_site, serve_at, serve_http, serve_challenge_page, serve_stats_page,
}

abbrev is_pass : Response → Bool
is_pass pass = true
is_pass _ = false

module _ (C : Cache) (setup : Setup) (out : Outside) (now : ℕ) (req : Request) (ip : Text) where
  accept_no_pass :
      (exp : ℕ) (st : State C) → is_pass (accept C setup out now req ip exp st).0 ≡ false
  unfolding accept remember
  accept_no_pass exp st = ground arith

  conclude_no_pass :
      (exp : ℕ) (check : Check) (st : State C)
      → is_pass (conclude C setup out now req ip exp check st).0 ≡ false
  unfolding conclude
  conclude_no_pass exp failed st = refl
  conclude_no_pass exp (verdict true) st = accept_no_pass exp st
  conclude_no_pass exp (verdict false) st = refl

  verify_no_pass :
      (st : State C) → is_pass (verify_challenge_page C setup out now req st ip).0 ≡ false
  unfolding verify_challenge_page
  verify_no_pass st =
      let active = get_active_captcha_config setup.config setup.captcha_config st.breaker in
      let checked =
        external_check setup out now req ip active
          (req.form_value (active.key ++ codes "-response")) st.breaker in
      elim (Bool-cases (text_eq (req.form_value (active.key ++ codes "-response")) [])) [
        | inl e ↦ rw e refl
        | inr e ↦ elim (Bool-cases (text_eq active.validate (codes "internal"))) [
          | inl i ↦ rw (e, i) (accept_no_pass _ st)
          | inr i ↦
              rw (e, i)
                (conclude_no_pass default_expiration checked.0 (record st { breaker = checked.1 }))
        ]
      ]

module _ (C : Cache) (lookup : Text → List Text → Bool) (query_escape : Text → Text) (setup : Setup)
    (out : Outside) (now : ℕ) (st : State C) (req : Request) where
  site_pass_iff :
      (ip : Text)
      → is_pass (serve_site C lookup query_escape setup now st req ip).0
        ≡ not (should_apply C lookup setup now st req ip).0
  unfolding serve_site challenge serve_challenge_page
  site_pass_iff ip = ground arith

  at_pass :
      (e : Endpoint) (ip : Text)
      → is_pass (serve_at C lookup query_escape e setup out now st req ip).0 ≡ true
      → (e ≡ site) × ((should_apply C lookup setup now st req ip).0 ≡ false)
  unfolding serve_at serve_stats_page serve_challenge_page
  at_pass poj_script ip h = cc
  at_pass cap_script ip h = cc
  at_pass verification ip h = cc (verify_no_pass C setup out now req ip st)
  at_pass page ip h = cc
  at_pass wrong_method ip h = cc
  at_pass statistics ip h = ground arith
  at_pass site ip h = (refl, ground (arith, site_pass_iff ip))

  -- A request reaches the site exactly when it is for none of the middleware's own endpoints and
  -- need not be challenged.
  pub serve_http_pass_iff : ((serve_http C lookup query_escape setup out now st req).0 ≡ pass) ↔ (
      (endpoint setup req ≡ site)
      × ((should_apply C lookup setup now st req
            (get_client_ip setup.config setup.exempt_ips req)).0
          ≡ false))
  unfolding serve_http serve_at serve_site
  serve_http_pass_iff =
      let ip = get_client_ip setup.config setup.exempt_ips req in
      (λ h. at_pass (endpoint setup req) ip (rw h refl), λ (here, free). rw (here, free) refl)

  -- A request for the site that must be challenged gets the challenge page where the site
  -- challenges in place, and is sent to the challenge's page with its own address otherwise.
  pub serve_http_challenged :
      endpoint setup req ≡ site
      → (should_apply C lookup setup now st req (get_client_ip setup.config setup.exempt_ips req)).0
        ≡ true
      → let response = (serve_http C lookup query_escape setup out now st req).0 in
        response ≡ (
          if challenge_on_page setup.config
          then challenge_page setup.config.challenge_status_code (record {
            site_key = setup.config.site_key;
            frontend_js =
                (get_active_captcha_config setup.config setup.captcha_config st.breaker).js;
            frontend_key =
                (get_active_captcha_config setup.config setup.captcha_config st.breaker).key;
            challenge_url = setup.config.challenge_url;
            destination = query_escape req.request_uri;
          })
          else redirect 302
              (setup.config.challenge_url
                ++ (codes "?destination=" ++ query_escape req.request_uri))
              none)
  unfolding serve_http serve_at serve_site challenge serve_challenge_page
  serve_http_challenged here applies =
      let ip = get_client_ip setup.config setup.exempt_ips req in
      let same : (should_apply C lookup setup now st req ip).1.breaker ≡ st.breaker =
        ap (λ (s : State C). s.breaker) (should_apply_state C lookup setup now st req ip) in
      rw (here, applies, same) refl
