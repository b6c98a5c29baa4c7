-- ===== src/Tests/Visits/Driven.antt =====
-- The driver of the end-to-end test, run against the middleware: each site of its configuration is a
-- middleware that starts from that configuration, with a provider that refuses every token.
use captcha_protect.Base.{
  ℕ, ◌+◌, ◌≡◌, refl, Bool, true, false, [], ◌++◌, Option, none, some, Text, codes, text_eq,
  starts_with, any, if◌then◌else◌, ok,
}
use captcha_protect.Cache.Memory.{memory_cache}
use captcha_protect.Circuit.{answer, no_answer, perform_health_check}
use captcha_protect.Config.{Config}
use captcha_protect.EndToEnd.{Outer, Driver, Call, Answer}
use captcha_protect.EndToEnd.Checks.{main}
use captcha_protect.Middleware.{Setup, State, Response}
use captcha_protect.Persist.Reader.{read_state}
use captcha_protect.Serve.{serve_http}
use captcha_protect.Serve.Written.{written}
use captcha_protect.Startup.{missing, new_setup, new_state}
use captcha_protect.Scripts.{get_cap_js}
use captcha_protect.Net.{parse_cidr}
use captcha_protect.Verify.{second}
use captcha_protect.Tests.Visits.{no_bot, refusing, serve, verify}
use captcha_protect.ClientIp.{get_client_ip}
use captcha_protect.EndToEnd.Checks.{Login, SiteKey}
use captcha_protect.Tests.Visits.Sites.{
  site_config, app_config, parse_site_url, setup_of, escape_slashes, request_of, drop_text, upto,
  answered,
}

-- The clock, whether Cap runs, and the states of the three middlewares.
record Sites : Type 0 where
  clock : ℕ
  cap_runs : Bool
  site : State memory_cache
  app2 : State memory_cache
  app3 : State memory_cache

abbrev local : Text
local = codes "http://localhost:8880"

abbrev path_of : Call → Text
path_of call = upto b'?' (drop_text local call.target)

abbrev query_of : Call → Text
query_of call = drop_text (path_of call ++ codes "?destination=") (drop_text local call.target)

abbrev serve_call : Setup → State memory_cache → Call → ℕ → Response × State memory_cache
serve_call setup st call clock =
    serve_http memory_cache no_bot escape_slashes setup refusing clock st
      (request_of (path_of call) (query_of call) call)

-- Traefik sends a request to Cap, or through one of the middlewares.
abbrev routed : Call → Sites → Option Answer × Sites
routed call w =
    if starts_with (path_of call) (codes "/cap/")
    then (
      if w.cap_runs
          then some (record { status = 200; header = λ name. []; body = some (codes "{}") })
          else some (record { status = 502; header = λ name. []; body = some [] }),
      w,
    )
    else if starts_with (path_of call) (codes "/app2")
    then (let (response, st) =
          serve_call (setup_of (app_config (codes "/app2"))) w.app2 call w.clock in
        (answered (codes "render") response, record w { app2 = st }))
    else if starts_with (path_of call) (codes "/app3")
    then (let (response, st) =
          serve_call (setup_of (app_config (codes "/app3"))) w.app3 call w.clock in
        (answered (codes "execute") response, record w { app3 = st }))
    else (let (response, st) = serve_call (setup_of site_config) w.site call w.clock in
        (answered (codes "render") response, record w { site = st }))

-- While the driver sleeps, the middleware of the first site looks at the health of Cap.
abbrev checked : Sites → Sites
checked w = record w {
  site = record w.site {
    breaker =
        perform_health_check (setup_of site_config).config (setup_of site_config).captcha_config
          (λ url. if w.cap_runs then answer 200 else no_answer) w.site.breaker;
  };
}

abbrev sites : Outer
sites = record {
  W = Sites;
  now = λ w. w.clock;
  sleep = λ d w. record (checked w) { clock = w.clock + d };
  docker = λ args w. (
    (true, codes "up"),
    if any (λ arg. text_eq arg (codes "stop")) args then record w { cap_runs = false } else w,
  );
  is_url = λ t. true;
  send = λ client call w. routed call (record w { clock = w.clock + second });
  mkdir_all = λ w. (true, w);
  write_file = λ text w. (none, w);
  rename = λ w. (true, w);
}

abbrev logged_in : Text → Option Login
logged_in t = some (record { success = true; session_token = codes "t"; hashed_token = codes "h" })

abbrev new_key : Text → Option SiteKey
new_key t = some (record { site_key = codes "site"; secret_key = codes "secret" })

abbrev first_state : Config → State memory_cache
first_state c = new_state memory_cache read_state c true none 0

abbrev begun : Driver sites
begun = record {
  world = record {
    clock = 0;
    cap_runs = true;
    site = first_state site_config;
    app2 = first_state (app_config (codes "/app2"));
    app3 = first_state (app_config (codes "/app3"));
  };
  tmp = none;
  dynamic = none;
}

site_starts :
    new_setup parse_site_url
      (λ t. t)
      (λ r. none)
      (λ t. true)
      missing
      (codes "captcha-protect")
      site_config
    ≡ ok (setup_of site_config)
unfolding new_setup captcha_protect.Startup.validate_config captcha_protect.Startup.refuse text_eq
    captcha_protect.Startup.route_regexes captcha_protect.Startup.has_template
    captcha_protect.Startup.template_text captcha_protect.Startup.parse_networks parse_cidr
    captcha_protect.Base.index_byte any captcha_protect.Base.parse_decimal
    captcha_protect.Startup.complete_config captcha_protect.Startup.choose_provider
    captcha_protect.Startup.default_status captcha_protect.Startup.new_cap_captcha_config
    captcha_protect.Startup.base_url captcha_protect.Base.trim_right captcha_protect.Base.trim_space
    captcha_protect.Base.trim_left captcha_protect.Base.lower_byte captcha_protect.Base.to_lower
    starts_with captcha_protect.Startup.is_root_relative_path captcha_protect.Startup.is_http_url
    captcha_protect.Startup.cap_verify_base captcha_protect.Config.challenge_on_page
site_starts = refl

served : (main sites (λ name. []) escape_slashes logged_in new_key begun).0 ≡ ok tt
unfolding site_starts serve verify written perform_health_check new_state get_client_ip
    captcha_protect.Persist.load_state_from_file main captcha_protect.EndToEnd.Checks.prepare
    captcha_protect.EndToEnd.Helpers.compose captcha_protect.EndToEnd.ensure
    captcha_protect.EndToEnd.Helpers.write_dynamic_config
    captcha_protect.EndToEnd.Checks.bring_online captcha_protect.EndToEnd.Helpers.wait_for_status
    captcha_protect.EndToEnd.Helpers.wait_for captcha_protect.EndToEnd.Helpers.poll_loop
    captcha_protect.EndToEnd.Helpers.get_status captcha_protect.EndToEnd.Checks.create_site_key
    captcha_protect.EndToEnd.Helpers.post_json captcha_protect.EndToEnd.env_or
    captcha_protect.EndToEnd.expect captcha_protect.EndToEnd.Checks.check_protection
    captcha_protect.EndToEnd.Helpers.wait_for_redirect captcha_protect.EndToEnd.Helpers.request
    captcha_protect.EndToEnd.Checks.assert_http_challenge
    captcha_protect.EndToEnd.Checks.assert_contained captcha_protect.Base.contains_text text_eq
    starts_with captcha_protect.EndToEnd.Checks.assert_traefik_plugin_logs_clean
    captcha_protect.EndToEnd.Helpers.compose_output captcha_protect.EndToEnd.Checks.assert_absent
    captcha_protect.EndToEnd.Helpers.wait_for_body_contains captcha_protect.EndToEnd.encode_form
    captcha_protect.EndToEnd.marshal_map captcha_protect.EndToEnd.marshal_entries get_cap_js
    captcha_protect.Cache.find_item captcha_protect.ClientIp.is_ip_excluded
    captcha_protect.Net.ip_net_contains captcha_protect.Net.parse_ip
    captcha_protect.ClientIp.strip_port captcha_protect.Access.is_good_bot
    captcha_protect.Access.known_bot captcha_protect.Routes.is_good_user_agent
    captcha_protect.Access.route_is_protected captcha_protect.Routes.route_is_protected_prefix
    captcha_protect.Routes.is_extension_protected captcha_protect.Base.trim_prefix
    captcha_protect.Routes.file_ext captcha_protect.Encoding.marshal_string
    captcha_protect.Encoding.encode_loop captcha_protect.Encoding.rune_tail
    captcha_protect.Encoding.escape_ascii captcha_protect.Scripts.cap_js_body
    captcha_protect.Scripts.join_lines captcha_protect.Circuit.get_active_captcha_config
    captcha_protect.Circuit.record_health_check_failure
    captcha_protect.Circuit.record_health_check_success captcha_protect.Base.split
    captcha_protect.Base.index_byte captcha_protect.Base.last_index_byte
served = refl
