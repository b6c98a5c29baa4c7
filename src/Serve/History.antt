-- ===== src/Serve/History.antt =====
-- What a visitor who reaches the site has done before.
use captcha_protect.Base.{
  ℕ, ◌+◌, ◌*◌, ◌<◌, ◌≡◌, ◌≢◌, ◌⊎◌, ◌∙◌, sym, ap, inl, inr, true, false, none, List, [], ◌∷◌, Text,
  text_eq, text_eq_iff, text_ne, any, All, Bool-cases, IsNonneg, le_or_lt, if_both,
}
use captcha_protect.Request.{user_agent}
use captcha_protect.Cache.{Cache, IsLawful}
use captcha_protect.ClientIp.{is_ip_excluded}
use captcha_protect.Routes.{is_good_user_agent}
use captcha_protect.Middleware.{Setup, State, pass}
use captcha_protect.Access.{is_good_bot, verification_key, route_is_protected}
use captcha_protect.Access.Challenged.{should_apply_free}
use captcha_protect.Verify.{second}
use captcha_protect.Serve.{site, endpoint}
use captcha_protect.Serve.Challenge.{serve_http_pass_iff}
use captcha_protect.Serve.Verified.{granted, is_fallback}
use captcha_protect.Serve.Expired.{lifetime_over}
use captcha_protect.Serve.Visits.{Visit, serve, address, run, Solves, Solved, serve-Effect}

module _ {C : Cache} (L : IsLawful C) (query_escape : Text → Text) (setup : Setup) where
  -- The times of a visit fit in 63 bits, for a default lifetime.
  abbrev pub Fits : ℕ → Visit → Type 0
  Fits default v = IsNonneg (v.moment + 3600 * second) × IsNonneg (v.moment + default)

  -- So they do, and the background leaves the verified visitors alone.
  abbrev pub IsRegular : ℕ → (State C → State C) × Visit → Type 0
  IsRegular default (before, v) =
      ((s : State C) → (before s).verified_cache ≡ s.verified_cache) × Fits default v

  pub serve-default :
      (v : Visit) (st : State C)
      → C.default (serve C query_escape setup v st).1.verified_cache ≡ C.default st.verified_cache
  serve-default v st = elim (serve-Effect C query_escape setup v st) [
    | inl kept ↦ ap C.default kept
    | inr (key, _, _, _, cached) ↦ ap C.default cached ∙ L.default-set _ _ _ _ _
  ]

  -- Who is verified after a visit was verified before, or has just passed the challenge.
  pub serve_verified :
      (v : Visit) (st : State C) (key : Text) (later : ℕ)
      → 0 < C.default st.verified_cache
      → Fits (C.default st.verified_cache) v
      → IsNonneg later
      → C.get (serve C query_escape setup v st).1.verified_cache later key ≢ none
      → (C.get st.verified_cache later key ≢ none) ⊎ Solves C query_escape setup v st key later
  serve_verified v st key later positive (hour, day) fits found =
      elim (serve-Effect C query_escape setup v st) [
        | inl kept ↦ inl (rw kept at found)
        | inr (granted_key, here, sent, named, cached) ↦
            elim (Bool-cases (text_eq granted_key key)) [
              | inr other ↦
                  let apart : key ≢ granted_key =
                    λ same. text_ne granted_key key other (sym same) in
                  inl (λ gone. found (rw cached (L.get-set_other _ _ _ _ _ _ _ apart ∙ gone)))
              | inl e ↦
                  let same : granted_key ≡ key = (text_eq_iff granted_key key).0 e in
                  elim (le_or_lt later (v.moment + granted setup st)) [
                    | inl soon ↦ inr (here, sent, rw (← same) named, soon)
                    | inr late ↦ absurd (
                        found (
                          rw (cached, ← same)
                            (lifetime_over L st.verified_cache v.moment later granted_key
                              (is_fallback setup st) positive
                              (if_both (λ d. IsNonneg (v.moment + d)) (is_fallback setup st) hour
                                day)
                              fits late)))
                  ]
            ]
      ]

  run_verified :
      (visits : List ((State C → State C) × Visit)) (st : State C) (key : Text) (later : ℕ)
      → 0 < C.default st.verified_cache
      → All (IsRegular (C.default st.verified_cache)) visits
      → IsNonneg later
      → C.get (run C query_escape setup visits st).verified_cache later key ≢ none
      → (C.get st.verified_cache later key ≢ none) ⊎ Solved C query_escape setup visits st key later
  unfolding run
  run_verified [] st key later positive fit fits found = inl found
  run_verified ((before, v) ∷ visits) st key later positive ((quiet, here), fit) fits found =
      let st' = before st in
      let next = (serve C query_escape setup v st').1 in
      let kept : C.default st'.verified_cache ≡ C.default st.verified_cache =
        ap C.default (quiet st) in
      let same : C.default next.verified_cache ≡ C.default st.verified_cache =
        serve-default v st' ∙ kept in
      elim (run_verified visits next key later (rw same positive) (rw same fit) fits found) [
        | inl live ↦
            elim (serve_verified v st' key later (rw kept positive) (rw kept here) fits live) [
              | inl earlier ↦ inl (rw (quiet st) at earlier)
              | inr solves ↦ inr (inl solves)
            ]
        | inr solved ↦ inr (inr solved)
      ]

  -- Why a request reaches the site, where a visitor who is verified has some reason.
  pub pass_because :
      (v : Visit) (st : State C) (Reason : Type 0)
      → let ip = address C query_escape setup v in
        (C.get st.verified_cache v.moment (verification_key setup v.request ip) ≢ none → Reason)
        → (serve C query_escape setup v st).0 ≡ pass
        → (endpoint setup v.request ≡ site)
          × ((any (λ method. text_eq method v.request.method) setup.config.protect_http_methods
                ≡ false)
              ⊎ Reason
              ⊎ (is_ip_excluded ip setup.exempt_ips ≡ true)
              ⊎ ((is_good_bot C v.lookup setup v.moment st v.request ip).0 ≡ true)
              ⊎ (is_good_user_agent setup.config (user_agent v.request) ≡ true)
              ⊎ (route_is_protected setup v.request.url_path ≡ false))
  pass_because v st Reason because passed =
      let ip = address C query_escape setup v in
      let (here, free) =
        (serve_http_pass_iff C v.lookup query_escape setup v.out v.moment st v.request).0 passed in
      (
        here,
        elim (should_apply_free C v.lookup setup v.moment st v.request ip free) [
          | inl h ↦ inl h
          | inr (inl verified) ↦ inr (inl (because verified))
          | inr (inr h) ↦ inr (inr h)
        ],
      )

  -- From an empty cache, whatever visits came before, and whatever went on in the background that leaves
  -- the verified visitors alone: a request that reaches the site is for none
  -- of the middleware's own endpoints, and its method is not protected, its address is exempt or a
  -- good bot's, its user agent is exempt, its path is not protected, or one of those visits passed
  -- the challenge, was remembered under the key of this request, and is not over yet. The cache
  -- meets its laws and has a positive default lifetime, and the times fit in 63 bits.
  pub serve_http_pass_history :
      (visits : List ((State C → State C) × Visit)) (st : State C) (v : Visit) (default : ℕ)
      → st.verified_cache ≡ C.empty default
      → 0 < default
      → All (IsRegular default) visits
      → IsNonneg v.moment
      → let st' = run C query_escape setup visits st in
        let ip = address C query_escape setup v in
        (serve C query_escape setup v st').0 ≡ pass
        → (endpoint setup v.request ≡ site)
          × ((any (λ method. text_eq method v.request.method) setup.config.protect_http_methods
                ≡ false)
              ⊎ Solved C query_escape setup visits st (verification_key setup v.request ip) v.moment
              ⊎ (is_ip_excluded ip setup.exempt_ips ≡ true)
              ⊎ ((is_good_bot C v.lookup setup v.moment st' v.request ip).0 ≡ true)
              ⊎ (is_good_user_agent setup.config (user_agent v.request) ≡ true)
              ⊎ (route_is_protected setup v.request.url_path ≡ false))
  serve_http_pass_history visits st v default fresh positive fit fits passed =
      let st' = run C query_escape setup visits st in
      let key = verification_key setup v.request (address C query_escape setup v) in
      let same : C.default st.verified_cache ≡ default =
        ap C.default fresh ∙ L.default-empty default in
      pass_because v st' (Solved C query_escape setup visits st key v.moment)
        (λ verified.
          elim (run_verified visits st key v.moment (rw same positive) (rw same fit) fits
            verified) [
              | inl before ↦ absurd (before (rw fresh (L.get-empty default v.moment key)))
              | inr solved ↦ solved
            ])
        passed
