-- ===== src/EndToEnd/Checks.antt =====
-- The driver itself: `createSiteKey`, `assertHTTPChallenge`, `assertTraefikPluginLogsClean` and `main`
-- of ci/cap/main.go.
use captcha_protect.Base.{
  Bool, not, ◌||◌, List, [], ◌∷◌, ◌++◌, Option, none, some, Text, codes, text_eq, contains_text,
  ◌==◌, if◌then◌else◌,
}
use captcha_protect.EndToEnd.{
  Outer, Answer, Run, pure, ensure, ◌>>=◌, ◌>>◌, outside, env_or, base64, marshal_map,
}
use captcha_protect.EndToEnd.Helpers.{
  compose, compose_output, post_json, request, wait_for_status, wait_for_redirect,
  wait_for_body_contains, write_dynamic_config,
}
use captcha_protect.EndToEnd.Configs.{routing_config, keyed_config}

pub record Login : Type 0 where
  pub success : Bool
  pub session_token : Text
  pub hashed_token : Text

pub record SiteKey : Type 0 where
  pub site_key : Text
  pub secret_key : Text

abbrev pub site_ip : Text
site_ip = codes "203.0.113.10"

abbrev pub app2_ip : Text
app2_ip = codes "203.0.113.11"

abbrev pub app3_ip : Text
app3_ip = codes "203.0.113.14"

abbrev pub bogus_token_ip : Text
bogus_token_ip = codes "203.0.113.12"

abbrev pub breaker_ip : Text
breaker_ip = codes "203.0.113.13"

-- What the logs of Traefik must not contain.
abbrev pub plugin_failures : List Text
plugin_failures =
    codes "Plugins are disabled"
    ∷ codes "failed to create Yaegi interpreter"
    ∷ codes "failed to import plugin code"
    ∷ codes "failed to eval New"
    ∷ codes "cannot use type"
    ∷ codes "cannot define new methods"
    ∷ codes "capURL is required"
    ∷ codes "capURL must be"
    ∷ codes "capVerifyURL is required"
    ∷ codes "capVerifyURL must be"
    ∷ []

module _ (O : Outer) (getenv : Text → Text) (query_escape : Text → Text)
    (decode_login : Text → Option Login) (decode_key : Text → Option SiteKey) where
  abbrev pub driver_url : Text
  driver_url = codes "http://localhost:" ++ env_or getenv (codes "CAP_E2E_PORT") (codes "8880")

  abbrev pub admin_key : Text
  admin_key = env_or getenv (codes "CAP_ADMIN_KEY") (codes "captcha-protect-ci-admin-key")

  unfoldable pub create_site_key : Run O (Text × Text)
  create_site_key = do
    login ←
        post_json O decode_login (driver_url ++ codes "/cap/auth/login") []
          ((codes "admin_key", admin_key) ∷ [])
    ensure login.success (codes "cap admin login failed")
    let session =
        marshal_map ((codes "hash", login.hashed_token) ∷ (codes "token", login.session_token) ∷ [])
    key ←
        post_json O decode_key (driver_url ++ codes "/cap/server/keys")
          (codes "Bearer " ++ base64 session) ((codes "name", codes "captcha-protect-e2e") ∷ [])
    ensure (not (text_eq key.site_key [] || text_eq key.secret_key []))
        (codes "cap did not return a site key")
    pure (key.site_key, key.secret_key)

  -- Each text is in the page.
  unfoldable pub assert_contained : Text → List Text → Run O (Unit {0})
  assert_contained body [] = pure tt
  assert_contained body (want ∷ wants) =
      ensure (contains_text body want) (codes "challenge page is missing expected markup")
      >> assert_contained body wants

  abbrev pub get : Text → Text → Run O (Answer × Text)
  get ip path = request O query_escape ip (codes "GET") (driver_url ++ path) none

  unfoldable pub assert_http_challenge : Text → Run O (Unit {0})
  assert_http_challenge site_key = do
    page ← get site_ip (codes "/challenge?destination=%2F")
    assert_contained page.1 (
        codes "src=\"/captcha-protect-cap.js\""
        ∷ codes "class=\"cap\""
        ∷ (codes "data-sitekey=\"" ++ (site_key ++ codes "\""))
        ∷ [])
    script ← get site_ip (codes "/captcha-protect-cap.js")
    ensure
        (not (
          not (script.0.status == 200)
          || (not
                (text_eq (script.0.header (codes "Content-Type")) (codes "application/javascript"))
              || not (contains_text script.1 (codes "var CAP_URL = \"/cap\";")))))
        (codes "adapter script not served")
    widget ← get site_ip (codes "/cap/assets/widget.js")
    ensure
        (not
          (not (widget.0.status == 200) || not (text_eq (widget.0.header (codes "Location")) [])))
        (codes "cap widget asset must be reachable without a challenge")
    bogus ←
        request O query_escape bogus_token_ip (codes "POST") (driver_url ++ codes "/challenge") (
          some (
            (codes "cap-response", site_key ++ codes ":bogus:token")
            ∷ (codes "destination", codes "/")
            ∷ []))
    ensure (bogus.0.status == 403) (codes "bogus cap token must be rejected")
    wait_for_redirect O query_escape app2_ip (driver_url ++ codes "/app2/")
        (codes "/app2/challenge?destination=%2Fapp2%2F")
    wait_for_redirect O query_escape app3_ip (driver_url ++ codes "/app3/")
        (codes "/app3/challenge?destination=%2Fapp3%2F")
    click ← get app3_ip (codes "/app3/challenge?destination=%2Fapp3%2F")
    ensure (contains_text click.1 (codes "data-execution=\"execute\""))
        (codes "click-to-verify challenge page is missing data-execution")

  -- None of the texts is in the output.
  unfoldable pub assert_absent : Text → List Text → Run O (Unit {0})
  assert_absent output [] = pure tt
  assert_absent output (failure ∷ failures) =
      ensure (not (contains_text output failure)) (codes "Traefik plugin failure detected")
      >> assert_absent output failures

  unfoldable pub assert_traefik_plugin_logs_clean : Run O (Unit {0})
  assert_traefik_plugin_logs_clean = do
    output ← compose_output O (codes "logs" ∷ codes "--no-color" ∷ codes "traefik" ∷ [])
    assert_absent output plugin_failures

  -- The profile of the browser.
  abbrev pub with_browser : List Text → Run O (Unit {0})
  with_browser args = compose O (codes "--profile" ∷ codes "browser" ∷ args)

  abbrev pub down : Run O (Unit {0})
  down = with_browser (codes "down" ∷ codes "-v" ∷ codes "--remove-orphans" ∷ [])

  abbrev pub solve_in_browser : Text → Run O (Unit {0})
  solve_in_browser variant =
      with_browser (codes "run" ∷ codes "--rm" ∷ codes "browser" ∷ variant ∷ [])

  -- `main`, up to the configuration with the routes of Cap.
  unfoldable pub prepare : Run O (Unit {0})
  prepare = do down; made ← outside O.mkdir_all; ensure made (codes "create dynamic config dir")

  -- `main`, from there until Cap answers.
  unfoldable pub bring_online : Run O (Unit {0})
  bring_online = do
    with_browser (codes "build" ∷ codes "cap" ∷ codes "browser" ∷ [])
    compose O (
        codes "up"
        ∷ codes "-d"
        ∷ codes "valkey"
        ∷ codes "cap"
        ∷ codes "nginx"
        ∷ codes "nginx2"
        ∷ codes "traefik"
        ∷ [])
    wait_for_status O (driver_url ++ codes "/cap/") 200
    wait_for_status O (driver_url ++ codes "/cap/assets/widget.js") 200

  -- `main`, once the sites are protected.
  unfoldable pub check_protection : Text → Run O (Unit {0})
  check_protection site_key = do
    wait_for_redirect O query_escape site_ip (driver_url ++ codes "/")
        (codes "/challenge?destination=%2F")
    assert_http_challenge site_key
    assert_traefik_plugin_logs_clean
    solve_in_browser (codes "visible")
    solve_in_browser (codes "hidden")
    solve_in_browser (codes "click")
    compose O (codes "stop" ∷ codes "cap" ∷ [])
    wait_for_body_contains O query_escape breaker_ip
        (driver_url ++ codes "/challenge?destination=%2F") (codes "/captcha-protect-poj.js")
    assert_traefik_plugin_logs_clean
    if text_eq (getenv (codes "CAP_E2E_KEEP")) [] then down else pure tt

  unfoldable pub main : Run O (Unit {0})
  main = do
    prepare
    write_dynamic_config O routing_config
    bring_online
    keys ← create_site_key
    write_dynamic_config O (keyed_config keys.0 keys.1)
    check_protection keys.0
