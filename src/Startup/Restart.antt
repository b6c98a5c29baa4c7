-- ===== src/Startup/Restart.antt =====
-- A verification outlives a restart.
use captcha_protect.Base.{
  ◌++◌, text_eq_iff, sym, ℕ, ◌+◌, ◌≤◌, ◌<◌, ◌≡◌, ◌≢◌, ◌∙◌, true, some, no_text_eq, Bool, List, [],
  Option, Text, codes, arith, All, AllPairs, IsNonneg,
}
use captcha_protect.Request.{Request}
use captcha_protect.Cache.{Cache, IsLawful}
use captcha_protect.Snapshot.{CacheEntry}
use captcha_protect.ClientIp.{get_client_ip}
use captcha_protect.Middleware.{Cookie, redirect, Setup, State, pass}
use captcha_protect.Access.{verification_key}
use captcha_protect.Persist.{save_state_to_file}
use captcha_protect.Persist.Reader.{read_state}
use captcha_protect.Encoding.{valid_string}
use captcha_protect.Persist.Reload.{load_state_from_file-save_state_to_file}
use captcha_protect.Verify.{Outside, verify_challenge_page}
use captcha_protect.Verify.Sound.{is_redirect}
use captcha_protect.Verify.Effects.{verify_challenge_page_ip}
use captcha_protect.Serve.{endpoint, site, serve_http}
use captcha_protect.Serve.Verified.{
  carried_token, granted, is_fallback, lifetime_live, site_of_verified,
}
use captcha_protect.Startup.{new_state, window_duration}

module _ {C : Cache} (L : IsLawful C) (lookup : Text → List Text → Bool)
    (query_escape : Text → Text) (setup : Setup)
    (unmarshal : Text → Option (List (Text × CacheEntry))) where
  -- What is remembered of a key is the same after a save and a start from the file.
  pub restored :
      (saved started later : ℕ) (cache : C.State) (file : Option Text) (key : Text)
      → setup.config.persistent_state_file ≢ []
      → saved ≤ started
      → started < later
      → IsNonneg later
      → All (λ e. IsNonneg e.1.expiration) (C.items cache saved)
      → All (λ e. valid_string e.0 ≡ true) (C.items cache saved)
      → ((t : Text) (entries : List (Text × CacheEntry))
          → read_state t ≡ some entries
          → AllPairs (λ a b. a.0 ≢ b.0) entries
          → unmarshal t ≡ some entries)
      → let (_, file') = save_state_to_file C true true cache saved file in
        C.get (new_state C unmarshal setup.config true file' started).verified_cache later key
        ≡ C.get cache later key
  unfolding new_state
  restored saved started later cache file key on before order fits nonneg writable decodes =
      let (_, same) =
        load_state_from_file-save_state_to_file L started later unmarshal cache saved
          (window_duration C unmarshal setup.config) file key before order fits nonneg writable
          decodes in
      rw (no_text_eq setup.config.persistent_state_file [] on) same

  -- In the mode for addresses, a visitor who has passed the challenge reaches the site after a
  -- restart too, until the verification expires: if the state was saved after the challenge, and the
  -- middleware starts again from the file, with the same configuration. The cache meets its laws and
  -- has a positive default lifetime, the times fit in 63 bits, the keys are valid UTF-8, and
  -- encoding/json reads what the strict reader reads, where no key comes twice.
  pub serve_http_restarted :
      (out out' : Outside) (now saved started later : ℕ) (st : State C) (req next : Request)
      (ip : Text) (file : Option Text) (cache : C.State)
      → setup.config.verification_mode ≢ codes "session"
      → setup.config.persistent_state_file ≢ []
      → is_redirect (verify_challenge_page C setup out now req st ip).0 ≡ true
      → 0 < C.default st.verified_cache
      → IsNonneg (now + granted setup st)
      → saved ≤ started
      → started < later
      → later ≤ now + granted setup st
      → endpoint setup next ≡ site
      → get_client_ip setup.config setup.exempt_ips next ≡ ip
      → (verify_challenge_page C setup out now req st ip).1.verified_cache ≡ cache
      → All (λ e. IsNonneg e.1.expiration) (C.items cache saved)
      → All (λ e. valid_string e.0 ≡ true) (C.items cache saved)
      → ((t : Text) (entries : List (Text × CacheEntry))
          → read_state t ≡ some entries
          → AllPairs (λ a b. a.0 ≢ b.0) entries
          → unmarshal t ≡ some entries)
      → let (_, file') = save_state_to_file C true true cache saved file in
        let st' = new_state C unmarshal setup.config true file' started in
        serve_http C lookup query_escape setup out' later st' next ≡ (pass, st')
  unfolding verification_key
  serve_http_restarted out out' now saved started later st req next ip file cache mode on sent
        positive fits before order soon here same kept nonneg writable decodes =
      let (_, cached, _) = verify_challenge_page_ip C setup out now req st ip mode sent in
      let live : C.get cache later ip ≡ some true =
        rw (sym kept, cached)
          (lifetime_live L st.verified_cache now later ip (is_fallback setup st) positive fits
            soon) in
      let key : verification_key setup next (get_client_ip setup.config setup.exempt_ips next)
          ≡ ip =
        rw (no_text_eq setup.config.verification_mode (codes "session") mode) same in
      site_of_verified C lookup query_escape setup out' later _ next {v = true} here (
        rw key (
          restored saved started later cache file ip on before order (omega arith) nonneg writable
            decodes
          ∙ live))

  -- In the mode for sessions, a visitor who has passed the challenge with a cookie, and still sends
  -- it, reaches the site after a restart too, whatever the address, until the verification expires:
  -- if the state was saved after the challenge, and the middleware starts again from the file, with
  -- the same configuration. The cache meets its laws and has a positive default lifetime, the times
  -- fit in 63 bits, the keys are valid UTF-8, and encoding/json reads what the strict reader reads,
  -- where no key comes twice.
  pub serve_http_restarted_session :
      (out out' : Outside) (now saved started later : ℕ) (st : State C) (req next : Request)
      (ip : Text) (file : Option Text) (cache : C.State) (c : Cookie) (status : ℕ) (location : Text)
      → setup.config.verification_mode ≡ codes "session"
      → setup.config.persistent_state_file ≢ []
      → (verify_challenge_page C setup out now req st ip).0 ≡ redirect status location (some c)
      → 0 < C.default st.verified_cache
      → IsNonneg (now + granted setup st)
      → saved ≤ started
      → started < later
      → later ≤ now + granted setup st
      → endpoint setup next ≡ site
      → next.cookie c.cookie_name ≡ some c.cookie_value
      → (verify_challenge_page C setup out now req st ip).1.verified_cache ≡ cache
      → All (λ e. IsNonneg e.1.expiration) (C.items cache saved)
      → All (λ e. valid_string e.0 ≡ true) (C.items cache saved)
      → ((t : Text) (entries : List (Text × CacheEntry))
          → read_state t ≡ some entries
          → AllPairs (λ a b. a.0 ≢ b.0) entries
          → unmarshal t ≡ some entries)
      → let (_, file') = save_state_to_file C true true cache saved file in
        let st' = new_state C unmarshal setup.config true file' started in
        serve_http C lookup query_escape setup out' later st' next ≡ (pass, st')
  unfolding verification_key
  serve_http_restarted_session out out' now saved started later st req next ip file cache c status
        location mode on sent positive fits before order soon here carried kept nonneg writable
        decodes =
      let (token, cached, held) =
        carried_token C setup out now st req ip next c status location mode sent carried in
      let live : C.get cache later (codes "session:" ++ token) ≡ some true =
        rw (sym kept, cached)
          (lifetime_live L st.verified_cache now later (codes "session:" ++ token)
            (is_fallback setup st) positive fits soon) in
      let in_session = (text_eq_iff setup.config.verification_mode (codes "session")).1 mode in
      site_of_verified C lookup query_escape setup out' later _ next {v = true} here (
        rw (in_session, held)
          (restored saved started later cache file (codes "session:" ++ token) on before order
              (omega arith) nonneg writable decodes
            ∙ live))
