-- ===== src/Tests/Visits/Restarting.antt =====
-- A visitor who comes back after a restart, with the theorem at concrete data.
use captcha_protect.Base.{
  ℕ, ◌+◌, ◌*◌, ◌<◌, ◌≡◌, ◌≢◌, refl, List, [], ◌∷◌, ◌++◌, some, none, Bool, true, false, Text, codes,
  text_eq, arith, All,
}
use captcha_protect.Cache.{Item}
use captcha_protect.Cache.Memory.{memory_cache, memory_cache-IsLawful}
use captcha_protect.ClientIp.{get_client_ip}
use captcha_protect.Middleware.{Setup, pass}
use captcha_protect.Encoding.{valid_string}
use captcha_protect.Persist.{save_state_to_file}
use captcha_protect.Persist.Reader.{read_state}
use captcha_protect.Serve.{endpoint, site, serve_http}
use captcha_protect.Startup.{new_state}
use captcha_protect.Startup.Restart.{serve_http_restarted}
use captcha_protect.Verify.{second, verify_challenge_page}
use captcha_protect.Verify.Sound.{is_redirect}
use captcha_protect.Tests.{wiki_config}
use captcha_protect.Tests.Visits.{
  setup, day, start, visit, no_bot, escape, solution, accepting, refusing, now, visitor, verify,
  serve,
}

abbrev pub kept_on_disk : Setup
kept_on_disk = record setup {
  config = record wiki_config { persistent_state_file = codes "/state.json" };
}

abbrev pub remembered : memory_cache.State
remembered =
    let (_, st') =
      verify_challenge_page memory_cache kept_on_disk accepting now solution start visitor in
    st'.verified_cache

pub solved_on_disk :
    is_redirect
      (verify_challenge_page memory_cache kept_on_disk accepting now solution start visitor).0
    ≡ true
unfolding verify
solved_on_disk = refl

pub site_on_disk : endpoint kept_on_disk visit ≡ site
unfolding serve
site_on_disk = refl

pub nonneg :
    All (λ e. e.1.expiration < 0x8000_0000_0000_0000) (memory_cache.items remembered (60 * second))
unfolding verify captcha_protect.Cache.Memory.live_items captcha_protect.Cache.Memory.without
nonneg = (omega arith, tt)

pub writable : All (λ e. valid_string e.0 ≡ true) (memory_cache.items remembered (60 * second))
unfolding verify captcha_protect.Cache.Memory.live_items captcha_protect.Cache.Memory.without
    captcha_protect.Encoding.valid_loop captcha_protect.Encoding.rune_tail
writable = (refl, tt)

pub address_on_disk : get_client_ip kept_on_disk.config [] visit ≡ visitor
unfolding get_client_ip captcha_protect.ClientIp.strip_port captcha_protect.Base.contains_text
    text_eq captcha_protect.Base.split captcha_protect.Base.any captcha_protect.Base.trim_space
    captcha_protect.ClientIp.is_ip_excluded
address_on_disk = refl

serve_http_restarted_example :
    let (_, file') = save_state_to_file memory_cache true true remembered (60 * second) none in
    let st' = new_state memory_cache read_state kept_on_disk.config true file' (90 * second) in
    serve_http memory_cache no_bot escape kept_on_disk refusing (now + day) st' visit ≡ (pass, st')
unfolding verify
serve_http_restarted_example =
    serve_http_restarted memory_cache-IsLawful no_bot escape kept_on_disk read_state accepting
      refusing now (60 * second) (90 * second) (now + day) start solution visit visitor none
      remembered (λ e. ground arith) (λ e. ground arith) solved_on_disk (omega arith) (omega arith)
      (omega arith) (omega arith) (omega arith) site_on_disk address_on_disk refl nonneg writable
      (λ t entries reads distinct. reads)
