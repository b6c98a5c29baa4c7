-- ===== src/Tests/Visits.antt =====
-- A middleware, a visitor and a provider on which whole requests are run.
mod Deciding
mod Verifying
mod Returning
mod History
mod Restarting
mod Lifetimes
mod Sites
mod Driven
mod Resuming
use captcha_protect.Base.{
  ℕ, ◌+◌, ◌*◌, ◌≡◌, ◌≢◌, ◌↔◌, refl, List, [], ◌∷◌, ◌++◌, Option, none, some, Bool, true, false,
  Text, codes, text_eq, if◌then◌else◌, arith, any, u64_mod, add64,
}
use captcha_protect.Config.{challenge_on_page}
use captcha_protect.Request.{Request}
use captcha_protect.Cache.{Cache}
use captcha_protect.Cache.Memory.{memory_cache, memory_cache-IsLawful}
use captcha_protect.Circuit.{Breaker, new_breaker, turnstile_config}
use captcha_protect.ClientIp.{get_client_ip, is_ip_excluded}
use captcha_protect.Destination.{Url, normalize_destination}
use captcha_protect.Session.{session_cookie_name, random_uuid}
use captcha_protect.Middleware.{Setup, State, Response, pass, redirect, http_error, Cookie}
use captcha_protect.Routes.{is_good_user_agent}
use captcha_protect.Access.{
  known_bot, verification_key, route_is_protected, is_good_bot, should_apply,
}
use captcha_protect.Access.Challenged.{should_apply_iff, should_apply_state}
use captcha_protect.Verify.{
  Body, Reply, answer, no_answer, form, Outside, CaptchaResponse, second, session_cookie,
  validation_body, verify_challenge_page,
}
use captcha_protect.Verify.Sound.{is_redirect, TurnstileAnswer, verify_challenge_page_sound}
use captcha_protect.Verify.Effects.{
  verify_challenge_page_refused, verify_challenge_page_ip, verify_challenge_page_session,
}
use captcha_protect.Serve.{
  endpoint, site, serve_http, serve_at, serve_site, is_method, challenge, serve_challenge_page,
}
use captcha_protect.Serve.Challenge.{serve_http_pass_iff, serve_http_challenged}
use captcha_protect.Serve.Verified.{serve_http_verified_ip, serve_http_verified_session}
use captcha_protect.Tests.{wiki_config, request_for}

abbrev setup : Setup
setup = record {
  name = codes "captcha";
  config = wiki_config;
  captcha_config = turnstile_config;
  cap_js = [];
  exempt_ips = [];
  protect_routes_regex = [];
  exclude_routes_regex = [];
}

abbrev in_session : Setup
in_session = record setup { config = record wiki_config { verification_mode = codes "session" } }

abbrev day : ℕ
day = 86400 * second

abbrev start : State memory_cache
start = record {
  verified_cache = memory_cache.empty day;
  bot_cache = memory_cache.empty (3600 * second);
  breaker = new_breaker;
  googlebot_ips = none;
  common_crawl_ips = none;
  uptime_robot_ips = none;
  state_dirty = 0;
  state_saved_dirty = 0;
}

abbrev visit : Request
visit = request_for (codes "/wiki/a") (codes "203.0.113.7")

abbrev no_bot : Text → List Text → Bool
no_bot ip bots = false

abbrev escape : Text → Text
escape t = t

-- The visitor posts an answer to the challenge.
abbrev solution : Request
solution = record visit {
  method = codes "POST";
  url_path = codes "/challenge";
  form_value = λ name.
      if text_eq name (codes "cf-turnstile-response")
      then codes "token"
      else if text_eq name (codes "destination")
      then codes "/wiki/a"
      else [];
}

abbrev verdict_of : Bool → CaptchaResponse
verdict_of success = record {
  success = success;
  hostname = codes "example.org";
  challenge_ts = codes "then";
}

-- A provider that gives one answer, made ten seconds after the epoch.
abbrev outside : Reply → Outside
outside reply = record {
  post = λ url body. reply;
  idempotency_bytes =
      some (1 ∷ 2 ∷ 3 ∷ 4 ∷ 5 ∷ 6 ∷ 7 ∷ 8 ∷ 9 ∷ 10 ∷ 11 ∷ 12 ∷ 13 ∷ 14 ∷ 15 ∷ 16 ∷ []);
  session_bytes = some (1 ∷ 2 ∷ 3 ∷ 4 ∷ 5 ∷ 6 ∷ 7 ∷ 8 ∷ 9 ∷ 10 ∷ 11 ∷ 12 ∷ 13 ∷ 14 ∷ 15 ∷ 16 ∷ []);
  parse_time = λ t. some (10 * second);
  parse_url = λ t. some (record {
    scheme = [];
    url_host = [];
    path = t;
    raw_query = [];
    fragment = [];
    request_uri = t;
  });
  path_unescape = λ t. some t;
}

abbrev accepting : Outside
accepting = outside (answer 200 (some (verdict_of true)))

abbrev refusing : Outside
refusing = outside (answer 200 (some (verdict_of false)))

abbrev now : ℕ
now = 20 * second

abbrev visitor : Text
visitor = codes "203.0.113.7"

serve : Setup → Outside → ℕ → State memory_cache → Request → Response × State memory_cache
unfolding serve_http serve_at endpoint text_eq challenge_on_page serve_site should_apply any
    is_method challenge serve_challenge_page
serve = serve_http memory_cache no_bot escape

verify : Setup → Outside → ℕ → Request → State memory_cache → Text → Response × State memory_cache
unfolding verify_challenge_page text_eq captcha_protect.Circuit.get_active_captcha_config
    captcha_protect.Circuit.has_fallback_provider captcha_protect.Verify.conclude
    captcha_protect.Verify.external_check validation_body random_uuid
    captcha_protect.Verify.answer_verdict captcha_protect.Verify.turnstile_accepts
    captcha_protect.Verify.uses_turnstile_test_keys any
    captcha_protect.Verify.captcha_validation_hostname captcha_protect.Net.split_host_port
    captcha_protect.Verify.is_fresh captcha_protect.Verify.accept captcha_protect.Verify.remember
    captcha_protect.Base.index_byte captcha_protect.Base.last_index_byte
    captcha_protect.Base.starts_with captcha_protect.Circuit.get_captcha_config
    captcha_protect.Circuit.record_health_check_failure normalize_destination
    captcha_protect.Destination.sanitize_destination captcha_protect.Session.fnv64a
    captcha_protect.Session.hex_byte captcha_protect.Base.hex_char session_cookie_name
    captcha_protect.Verify.mark_state_dirty
verify setup out now req st ip = verify_challenge_page memory_cache setup out now req st ip

solved :
    is_redirect (verify_challenge_page memory_cache setup accepting now solution start visitor).0
    ≡ true
unfolding verify
solved = refl

at_site : endpoint setup visit ≡ site
unfolding serve
at_site = refl

address_mode : wiki_config.verification_mode ≢ codes "session"
address_mode e = ground arith
