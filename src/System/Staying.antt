-- ===== src/System/Staying.antt =====
-- Whoever has passed the challenge stays verified, across saves and restarts.
use captcha_protect.Base.{
  ℕ, ◌+◌, ◌≤◌, ◌<◌, ◌≡◌, refl, sym, inl, inr, true, some, Text, text_eq, text_eq_iff, text_ne,
  arith, IsNonneg, Bool-cases,
}
use captcha_protect.Cache.{Cache, IsLawful}
use captcha_protect.Middleware.{Setup, State}
use captcha_protect.Serve.{serve_at, serve_http}
use captcha_protect.Serve.Verified.{lifetime_live, is_fallback, granted}
use captcha_protect.Serve.Visits.{Visit, serve, address, Solves, serve-Effect}
use captcha_protect.Verify.Effects.{verify_challenge_page_ip, verify_challenge_page_session}

module _ {C : Cache} (L : IsLawful C) (query_escape : Text → Text) (setup : Setup) where
  -- A visit that passes the challenge is remembered until its time is over.
  pub get-Solves :
      (v : Visit) (st : State C) (key : Text) (until later : ℕ)
      → 0 < C.default st.verified_cache
      → IsNonneg (v.moment + granted setup st)
      → Solves C query_escape setup v st key until
      → later ≤ until
      → C.get (serve C query_escape setup v st).1.verified_cache later key ≡ some true
  unfolding serve_http serve_at
  get-Solves v st key until later positive fits (here, sent, inl (mode, named), soon) in_time =
      let (_, cached, _) =
        verify_challenge_page_ip C setup v.out v.moment v.request st
          (address C query_escape setup v) mode sent in
      rw (here, cached, named)
        (lifetime_live L st.verified_cache v.moment later _ (is_fallback setup st) positive fits
          (omega arith))
  get-Solves v st key until later positive fits
        (here, sent, inr (mode, (token, drawn, named)), soon) in_time =
      let (token', drawn', _, cached) =
        verify_challenge_page_session C setup v.out v.moment v.request st
          (address C query_escape setup v) mode sent in
      let same : token' ≡ token = cc in
      rw (here, cached, named, same)
        (lifetime_live L st.verified_cache v.moment later _ (is_fallback setup st) positive fits
          (omega arith))

  -- A visit that does not pass the challenge under a key leaves what is remembered of it.
  pub get-serve_other :
      (v : Visit) (st : State C) (key : Text) (later : ℕ)
      → ¬ Solves C query_escape setup v st key 0
      → C.get (serve C query_escape setup v st).1.verified_cache later key
        ≡ C.get st.verified_cache later key
  get-serve_other v st key later other = elim (serve-Effect C query_escape setup v st) [
    | inl kept ↦ rw kept refl
    | inr (named_key, here, sent, named, cached) ↦ elim (Bool-cases (text_eq named_key key)) [
      | inr apart ↦
          rw cached (L.get-set_other _ _ _ _ _ _ _ (λ same. text_ne named_key key apart (sym same)))
      | inl e ↦
          let same = (text_eq_iff named_key key).0 e in
          absurd (other (here, sent, rw (← same) named, omega arith))
    ]
  ]
