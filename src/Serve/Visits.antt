-- ===== src/Serve/Visits.antt =====
-- Visits one after another, and what each does to the cache of verified visitors.
use captcha_protect.Base.{
  ℕ, ◌+◌, ◌≤◌, ◌≡◌, ◌≢◌, ◌⊎◌, refl, ap, inl, inr, Bool, true, List, [], ◌∷◌, ◌++◌, some, Text,
  codes, text_eq, text_eq_iff, text_ne, arith, Bool-cases,
}
use captcha_protect.Request.{Request}
use captcha_protect.Cache.{Cache}
use captcha_protect.ClientIp.{get_client_ip}
use captcha_protect.Session.{random_uuid}
use captcha_protect.Middleware.{Setup, State, Response}
use captcha_protect.Access.Challenged.{should_apply_state}
use captcha_protect.Verify.{Outside, verify_challenge_page}
use captcha_protect.Verify.Sound.{is_redirect}
use captcha_protect.Verify.Effects.{
  lifetime, verify_challenge_page_ip, verify_challenge_page_session, verify_challenge_page_refused,
}
use captcha_protect.Serve.{
  Endpoint, poj_script, cap_script, verification, page, wrong_method, statistics, site, endpoint,
  serve_site, serve_at, serve_http,
}
use captcha_protect.Serve.Verified.{granted}

-- A request with the time at which it is handled and what the world answers meanwhile.
pub record Visit : Type 0 where
  pub moment : ℕ
  pub out : Outside
  pub lookup : Text → List Text → Bool
  pub request : Request

module _ (C : Cache) (query_escape : Text → Text) (setup : Setup) where
  abbrev pub serve : Visit → State C → Response × State C
  serve v st = serve_http C v.lookup query_escape setup v.out v.moment st v.request

  abbrev pub address : Visit → Text
  address v = get_client_ip setup.config setup.exempt_ips v.request

  -- The state after some visits, each with what happens in the background before it.
  unfoldable pub run : List ((State C → State C) × Visit) → State C → State C
  run [] st = st
  run ((before, v) ∷ visits) st = run visits (serve v (before st)).1

  -- The key under which a visit that passes the challenge is remembered.
  abbrev pub IsKey : Visit → Text → Type 0
  IsKey v key =
      ((setup.config.verification_mode ≢ codes "session") × (key ≡ address v))
      ⊎ ((setup.config.verification_mode ≡ codes "session")
          × ((token : Text) × (random_uuid v.out.session_bytes ≡ some token)
              × (key ≡ codes "session:" ++ token)))

  -- A visit passes the challenge, and is remembered under a key until a time at least.
  abbrev pub Solves : Visit → State C → Text → ℕ → Type 0
  Solves v st key later =
      (endpoint setup v.request ≡ verification)
      × (is_redirect (verify_challenge_page C setup v.out v.moment v.request st (address v)).0
          ≡ true)
      × IsKey v key
      × (later ≤ v.moment + granted setup st)

  -- Some visit does.
  abbrev pub Solved : List ((State C → State C) × Visit) → State C → Text → ℕ → Type 0
  Solved [] st key later = ⊥
  Solved ((before, v) ∷ visits) st key later =
      Solves v (before st) key later ⊎ Solved visits (serve v (before st)).1 key later

  -- What a visit does to the cache of verified visitors: nothing, or it is remembered.
  abbrev pub Effect : Visit → State C → C.State → Type 0
  Effect v st cache =
      (cache ≡ st.verified_cache)
      ⊎ ((key : Text) × (endpoint setup v.request ≡ verification)
          × (is_redirect (verify_challenge_page C setup v.out v.moment v.request st (address v)).0
              ≡ true)
          × IsKey v key
          × (cache
              ≡ C.set st.verified_cache v.moment key true
                  (lifetime C setup v.out v.moment v.request st (address v))))

  verify-Effect :
      (v : Visit) (st : State C)
      → endpoint setup v.request ≡ verification
      → Effect v st
          (verify_challenge_page C setup v.out v.moment v.request st (address v)).1.verified_cache
  verify-Effect v st here =
      let answer = verify_challenge_page C setup v.out v.moment v.request st (address v) in
      elim (Bool-cases (is_redirect answer.0)) [
        | inr refused ↦
            let same =
              verify_challenge_page_refused C setup v.out v.moment v.request st (address v)
                refused in
            inl (ap (λ (s : State C). s.verified_cache) same)
        | inl sent ↦ elim (Bool-cases (text_eq setup.config.verification_mode (codes "session"))) [
          | inl e ↦
              let mode = (text_eq_iff setup.config.verification_mode (codes "session")).0 e in
              let (token, drawn, _, cached) =
                verify_challenge_page_session C setup v.out v.moment v.request st (address v) mode
                  sent in
              inr (codes "session:" ++ token, here, sent, inr (mode, (token, drawn, refl)), cached)
          | inr e ↦
              let mode = text_ne setup.config.verification_mode (codes "session") e in
              let (_, cached, _) =
                verify_challenge_page_ip C setup v.out v.moment v.request st (address v) mode
                  sent in
              inr (address v, here, sent, inl (mode, refl), cached)
        ]
      ]

  at-Effect :
      (e : Endpoint) (v : Visit) (st : State C)
      → endpoint setup v.request ≡ e
      → let (_, st') =
          serve_at C v.lookup query_escape e setup v.out v.moment st v.request (address v) in
        Effect v st st'.verified_cache
  unfolding serve_at serve_site
  at-Effect poj_script v st here = inl refl
  at-Effect cap_script v st here = inl refl
  at-Effect verification v st here = verify-Effect v st here
  at-Effect page v st here = inl refl
  at-Effect wrong_method v st here = inl refl
  at-Effect statistics v st here = inl refl
  at-Effect site v st here =
      let same = should_apply_state C v.lookup setup v.moment st v.request (address v) in
      let kept = ap (λ (s : State C). s.verified_cache) same in inl (ground arith)

  pub serve-Effect : (v : Visit) (st : State C) → Effect v st (serve v st).1.verified_cache
  unfolding serve_http
  serve-Effect v st = at-Effect (endpoint setup v.request) v st refl
