-- ===== src/Tests/Visits/Resuming.antt =====
-- A visitor with a session who comes back after a restart, with the theorem at concrete data.
use captcha_protect.Base.{
  ◌+◌, ◌*◌, ◌<◌, ◌≡◌, refl, some, none, true, codes, text_eq, if◌then◌else◌, arith, All,
}
use captcha_protect.Request.{Request}
use captcha_protect.Cache.{Item}
use captcha_protect.Cache.Memory.{memory_cache, memory_cache-IsLawful}
use captcha_protect.Middleware.{Setup, Cookie, pass, redirect}
use captcha_protect.Encoding.{valid_string}
use captcha_protect.Persist.{save_state_to_file}
use captcha_protect.Persist.Reader.{read_state}
use captcha_protect.Serve.{endpoint, site, serve_http}
use captcha_protect.Startup.{new_state}
use captcha_protect.Startup.Restart.{serve_http_restarted_session}
use captcha_protect.Verify.{second, session_cookie, verify_challenge_page}
use captcha_protect.Tests.{wiki_config}
use captcha_protect.Tests.Visits.{
  setup, day, start, visit, no_bot, escape, solution, accepting, refusing, now, visitor, verify,
  serve,
}

abbrev kept_session : Setup
kept_session = record setup {
  config = record wiki_config {
    verification_mode = codes "session";
    persistent_state_file = codes "/state.json";
  };
}

abbrev baked : Cookie
baked = session_cookie kept_session solution (codes "01020304-0506-4708-890a-0b0c0d0e0f10") 0

abbrev resuming : Request
resuming = record visit {
  remote_addr = codes "[2001:db8::1]:7";
  cookie = λ name. if text_eq name baked.cookie_name then some baked.cookie_value else none;
}

abbrev remembered : memory_cache.State
remembered =
    let (_, st') =
      verify_challenge_page memory_cache kept_session accepting now solution start visitor in
    st'.verified_cache

solved_in_kept :
    (verify_challenge_page memory_cache kept_session accepting now solution start visitor).0
    ≡ redirect 302 (codes "/wiki/a") (some baked)
unfolding verify
solved_in_kept = refl

resuming_at_site : endpoint kept_session resuming ≡ site
unfolding serve
resuming_at_site = refl

resuming_carries : resuming.cookie baked.cookie_name ≡ some baked.cookie_value
unfolding verify
resuming_carries = refl

nonneg :
    All (λ e. e.1.expiration < 0x8000_0000_0000_0000) (memory_cache.items remembered (60 * second))
unfolding verify captcha_protect.Cache.Memory.live_items captcha_protect.Cache.Memory.without
nonneg = (omega arith, tt)

valid_keys : All (λ e. valid_string e.0 ≡ true) (memory_cache.items remembered (60 * second))
unfolding verify captcha_protect.Cache.Memory.live_items captcha_protect.Cache.Memory.without
    captcha_protect.Encoding.valid_loop captcha_protect.Encoding.rune_tail
valid_keys = (refl, tt)

resumed :
    let (_, file') = save_state_to_file memory_cache true true remembered (60 * second) none in
    let st' = new_state memory_cache read_state kept_session.config true file' (90 * second) in
    serve_http memory_cache no_bot escape kept_session refusing (now + day) st' resuming
    ≡ (pass, st')
unfolding verify
resumed =
    serve_http_restarted_session memory_cache-IsLawful no_bot escape kept_session read_state
      accepting refusing now (60 * second) (90 * second) (now + day) start solution resuming visitor
      none remembered baked 302 (codes "/wiki/a") refl (λ e. ground arith) solved_in_kept
      (omega arith) (omega arith) (omega arith) (omega arith) (omega arith) resuming_at_site
      resuming_carries refl nonneg valid_keys (λ t entries reads distinct. reads)
