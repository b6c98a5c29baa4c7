-- ===== src/Verify/Effects.antt =====
-- What `verifyChallengePage` changes.
use captcha_protect.Base.{
  ℕ, ◌*◌, ◌≡◌, ◌≢◌, refl, no_text_eq, text_eq_iff, inl, inr, true, false, ◌&&◌, none, some, Text,
  [], ◌++◌, codes, text_eq, arith,
}
use captcha_protect.Base.{if◌then◌else◌, Bool-cases, Option-cases, add64}
use captcha_protect.Request.{Request}
use captcha_protect.Cache.{Cache, default_expiration}
use captcha_protect.Circuit.{Breaker, is_open, get_active_captcha_config}
use captcha_protect.Destination.{normalize_destination}
use captcha_protect.Session.{random_uuid}
use captcha_protect.Middleware.{Setup, State, redirect}
use captcha_protect.Verify.{
  Outside, Check, failed, verdict, second, session_cookie, mark_state_dirty,
}
use captcha_protect.Verify.{external_check, conclude, accept, remember, verify_challenge_page}
use captcha_protect.Verify.Sound.{is_redirect, conclude_sound}

module _ (C : Cache) (setup : Setup) (out : Outside) (now : ℕ) (req : Request) (st : State C)
    (ip : Text) where
  -- How long a verification lasts: an hour under the fallback of an open circuit.
  abbrev pub lifetime : ℕ
  lifetime =
      let active = get_active_captcha_config setup.config setup.captcha_config st.breaker in
      if text_eq active.validate (codes "internal") && is_open st.breaker.circuit_state
      then 3600 * second
      else default_expiration

  abbrev pub place : Text
  place =
      normalize_destination out.parse_url out.path_unescape (req.form_value (codes "destination"))

  accept_refused :
      (exp : ℕ) (s : State C)
      → is_redirect (accept C setup out now req ip exp s).0 ≡ false
      → (accept C setup out now req ip exp s).1 ≡ s
  unfolding accept remember
  accept_refused exp s h = ground arith

  conclude_refused :
      (exp : ℕ) (check : Check) (s : State C)
      → is_redirect (conclude C setup out now req ip exp check s).0 ≡ false
      → (conclude C setup out now req ip exp check s).1 ≡ s
  unfolding conclude
  conclude_refused exp failed s h = refl
  conclude_refused exp (verdict true) s h = accept_refused exp s h
  conclude_refused exp (verdict false) s h = refl

  -- A visitor who is not sent on leaves no trace but in the circuit breaker.
  pub verify_challenge_page_refused :
      is_redirect (verify_challenge_page C setup out now req st ip).0 ≡ false
      → let st' = (verify_challenge_page C setup out now req st ip).1 in
        st' ≡ record st { breaker = st'.breaker }
  unfolding verify_challenge_page
  verify_challenge_page_refused h =
      let active = get_active_captcha_config setup.config setup.captcha_config st.breaker in
      let response = req.form_value (active.key ++ codes "-response") in
      let checked = external_check setup out now req ip active response st.breaker in
      elim (Bool-cases (text_eq response [])) [
        | inl e ↦ rw e refl
        | inr e ↦ elim (Bool-cases (text_eq active.validate (codes "internal"))) [
          | inl i ↦
              rw
                (
                  e,
                  i,
                  accept_refused
                      (if is_open st.breaker.circuit_state
                        then 3600 * second
                        else default_expiration)
                      st (rw (e, i) at h),
                )
                refl
          | inr i ↦
              rw
                (
                  e,
                  i,
                  conclude_refused default_expiration checked.0 (record st { breaker = checked.1 })
                      (rw (e, i) at h),
                )
                refl
        ]
      ]

  -- A visitor who is sent on has been accepted, whatever happened to the circuit breaker.
  redirect-accept :
      is_redirect (verify_challenge_page C setup out now req st ip).0 ≡ true
      → (b : Breaker) × (verify_challenge_page C setup out now req st ip
          ≡ accept C setup out now req ip lifetime (record st { breaker = b }))
  unfolding verify_challenge_page conclude
  redirect-accept h =
      let active = get_active_captcha_config setup.config setup.captcha_config st.breaker in
      let response = req.form_value (active.key ++ codes "-response") in
      let checked = external_check setup out now req ip active response st.breaker in
      elim (Bool-cases (text_eq response [])) [
        | inl e ↦ cc (rw e at h)
        | inr e ↦ elim (Bool-cases (text_eq active.validate (codes "internal"))) [
          | inl i ↦ (st.breaker, rw (e, i) refl)
          | inr i ↦
              let passed =
                conclude_sound C setup out now req ip default_expiration checked.0
                  (record st { breaker = checked.1 }) (rw (e, i) at h) in
              (checked.1, rw (e, i, passed, conclude) refl)
        ]
      ]

  accept_ip :
      (exp : ℕ) (s : State C)
      → setup.config.verification_mode ≢ codes "session"
      → accept C setup out now req ip exp s ≡ remember C setup out now req ip none exp s
  unfolding accept
  accept_ip exp s mode = rw (no_text_eq setup.config.verification_mode (codes "session") mode) refl

  -- In the mode for addresses a visitor who is sent on goes to the requested place on this site
  -- without a cookie, the address is remembered from now on for the lifetime of a verification,
  -- and the change is counted where there is a state file.
  pub verify_challenge_page_ip :
      setup.config.verification_mode ≢ codes "session"
      → is_redirect (verify_challenge_page C setup out now req st ip).0 ≡ true
      → let (response, st') = verify_challenge_page C setup out now req st ip in
        (response ≡ redirect 302 place none)
        × (st'.verified_cache ≡ C.set st.verified_cache now ip true lifetime)
        × (st'.state_dirty ≡ (
            if text_eq setup.config.persistent_state_file []
            then st.state_dirty
            else add64 st.state_dirty 1))
  unfolding remember mark_state_dirty
  verify_challenge_page_ip mode sent =
      let (b, e) = redirect-accept sent in
      rw (e, accept_ip lifetime (record st { breaker = b }) mode) (refl, ground arith, ground arith)

  session_mode :
      setup.config.verification_mode ≡ codes "session"
      → text_eq setup.config.verification_mode (codes "session") ≡ true
  session_mode mode = (text_eq_iff setup.config.verification_mode (codes "session")).1 mode

  accept_session :
      (exp : ℕ) (s : State C)
      → setup.config.verification_mode ≡ codes "session"
      → is_redirect (accept C setup out now req ip exp s).0 ≡ true
      → (token : Text) × (random_uuid out.session_bytes ≡ some token)
        × (accept C setup out now req ip exp s
            ≡ remember C setup out now req
                (codes "session:" ++ token)
                (some (session_cookie setup req token exp))
                exp
                s)
  unfolding accept
  accept_session exp s mode sent = elim (Option-cases (random_uuid out.session_bytes)) [
    | inl lost ↦ cc (rw (session_mode mode, lost, accept) at sent)
    | inr (token, drawn) ↦ (token, drawn, rw (session_mode mode, drawn, accept) refl)
  ]

  -- In the mode for sessions a visitor who is sent on goes to the requested place on this site
  -- with a cookie that holds a token drawn from the random bytes, and what is remembered, for the
  -- lifetime of a verification, is that token.
  pub verify_challenge_page_session :
      setup.config.verification_mode ≡ codes "session"
      → is_redirect (verify_challenge_page C setup out now req st ip).0 ≡ true
      → let (response, st') = verify_challenge_page C setup out now req st ip in
        (token : Text) × (random_uuid out.session_bytes ≡ some token)
        × (response ≡ redirect 302 place (some (session_cookie setup req token lifetime)))
        × (st'.verified_cache
            ≡ C.set st.verified_cache now (codes "session:" ++ token) true lifetime)
  unfolding remember mark_state_dirty
  verify_challenge_page_session mode sent =
      let (b, e) = redirect-accept sent in
      let (token, drawn, e') =
        accept_session lifetime (record st { breaker = b }) mode (rw e at sent) in
      (token, drawn, rw (e, e') refl, rw (e, e') (ground arith))
