-- ===== src/Tests/Visits/Returning.antt =====
-- Tests of visitors who come back after a challenge, with the theorems at concrete data.
use captcha_protect.Base.{
  ℕ, ◌+◌, ◌*◌, ◌≡◌, ◌≢◌, ◌↔◌, refl, List, [], ◌∷◌, ◌++◌, Option, none, some, Bool, true, false,
  Text, codes, text_eq, if◌then◌else◌, arith, any, u64_mod, add64,
}
use captcha_protect.Request.{Request}
use captcha_protect.Cache.Memory.{memory_cache, memory_cache-IsLawful}
use captcha_protect.ClientIp.{get_client_ip, is_ip_excluded}
use captcha_protect.Session.{random_uuid}
use captcha_protect.Middleware.{pass, redirect, Cookie}
use captcha_protect.Verify.{session_cookie, verify_challenge_page}
use captcha_protect.Serve.{endpoint, site, serve_http}
use captcha_protect.Access.{should_apply, is_good_bot, route_is_protected}
use captcha_protect.Routes.{is_good_user_agent}
use captcha_protect.Request.{user_agent}
use captcha_protect.Serve.Expired.{should_apply_expired}
use captcha_protect.Serve.Verified.{serve_http_verified_ip, serve_http_verified_session}
use captcha_protect.Tests.{wiki_config}
use captcha_protect.Tests.Visits.{
  setup, in_session, day, start, visit, no_bot, escape, solution, accepting, refusing, now, visitor,
  serve, verify, solved, at_site, address_mode,
}

visit_ip : get_client_ip wiki_config [] visit ≡ visitor
unfolding get_client_ip captcha_protect.ClientIp.strip_port captcha_protect.Base.contains_text
    text_eq captcha_protect.Base.split is_ip_excluded any captcha_protect.Base.trim_space
visit_ip = refl

serve_http_verified_ip_example :
    let st' = (verify_challenge_page memory_cache setup accepting now solution start visitor).1 in
    serve_http memory_cache no_bot escape setup refusing (now + day) st' visit ≡ (pass, st')
unfolding verify
serve_http_verified_ip_example =
    serve_http_verified_ip memory_cache-IsLawful no_bot escape setup accepting now start solution
      visitor (now + day) visit refusing address_mode solved (omega arith) (omega arith)
      (omega arith) at_site visit_ip

abbrev token : Text
token = codes "01020304-0506-4708-890a-0b0c0d0e0f10"

token_drawn : random_uuid accepting.session_bytes ≡ some token
unfolding random_uuid
token_drawn = refl

abbrev baked : Cookie
baked = session_cookie in_session solution token 0

abbrev returning : Request
returning = record visit {
  remote_addr = codes "[2001:db8::1]:7";
  cookie = λ name. if text_eq name baked.cookie_name then some token else none;
}

solved_with_cookie :
    (verify_challenge_page memory_cache in_session accepting now solution start visitor).0
    ≡ redirect 302 (codes "/wiki/a") (some baked)
unfolding verify
solved_with_cookie = refl

returning_at_site : endpoint in_session returning ≡ site
unfolding serve
returning_at_site = refl

cookie_sent : returning.cookie baked.cookie_name ≡ some token
unfolding verify
cookie_sent = refl

serve_http_verified_session_example :
    let st' =
      (verify_challenge_page memory_cache in_session accepting now solution start visitor).1 in
    serve_http memory_cache no_bot escape in_session refusing (now + day) st' returning
    ≡ (pass, st')
unfolding verify
serve_http_verified_session_example =
    serve_http_verified_session memory_cache-IsLawful no_bot escape in_session accepting now start
      solution visitor (now + day) returning refusing baked 302 (codes "/wiki/a") refl
      solved_with_cookie (omega arith) (omega arith) (omega arith) returning_at_site cookie_sent

should_apply_expired_example :
    let st' = (verify_challenge_page memory_cache setup accepting now solution start visitor).1 in
    ((should_apply memory_cache no_bot setup (now + day + 1) st' visit visitor).0 ≡ true) ↔ (
      (any (λ method. text_eq method visit.method) setup.config.protect_http_methods ≡ true)
      × (is_ip_excluded visitor setup.exempt_ips ≡ false)
      × ((is_good_bot memory_cache no_bot setup (now + day + 1) st' visit visitor).0 ≡ false)
      × (is_good_user_agent setup.config (user_agent visit) ≡ false)
      × (route_is_protected setup visit.url_path ≡ true))
unfolding verify
should_apply_expired_example =
    should_apply_expired memory_cache-IsLawful no_bot setup accepting now start solution visitor
      (now + day + 1) visit address_mode solved (omega arith) (omega arith) (omega arith)
      (omega arith)
