-- ===== src/Tests/Driving.antt =====
-- The driver of the end-to-end test on a world where everything works, and on one where nothing does.
use captcha_protect.Base.{
  ℕ, ◌+◌, ◌*◌, ◌≡◌, ◌≤◌, refl, ◌&&◌, Bool, true, false, [], ◌∷◌, ◌++◌, Option, none, some, Text,
  codes, text_eq, contains_text, starts_with, leb, if◌then◌else◌, ok, err, arith,
}
use captcha_protect.EndToEnd.{
  Outer, IsClocked, Driver, Run, Call, Answer, exit, base64, pure, ensure, expect, env_or,
  encode_form, marshal_map, marshal_entries,
}
use captcha_protect.EndToEnd.Helpers.{
  wait_for, compose, write_dynamic_config, wait_for_status, poll_loop, get_status, post_json,
  wait_for_redirect, request, compose_output, wait_for_body_contains,
}
use captcha_protect.EndToEnd.Configs.{replace_loop}
use captcha_protect.EndToEnd.Checks.{
  Login, SiteKey, main, prepare, bring_online, create_site_key, check_protection,
  assert_http_challenge, assert_contained, assert_traefik_plugin_logs_clean, assert_absent,
}
use captcha_protect.EndToEnd.Waiting.{IsPolled, wait_for-IsPolled}
use captcha_protect.EndToEnd.Leaving.{IsLeft}
use captcha_protect.EndToEnd.Passed.{keys_url, main-IsLeft}
use captcha_protect.Verify.{second}

abbrev location_of : Text → Text
location_of target =
    if text_eq target (codes "http://localhost:8880/")
    then codes "/challenge?destination=%2F"
    else if text_eq target (codes "http://localhost:8880/app2/")
    then codes "/app2/challenge?destination=%2Fapp2%2F"
    else if text_eq target (codes "http://localhost:8880/app3/")
    then codes "/app3/challenge?destination=%2Fapp3%2F"
    else []

-- A site that answers what the driver expects, with all that it looks for in each page.
abbrev answer_to : Call → Answer
answer_to call = record {
  status =
      if text_eq call.method (codes "POST")
        && text_eq call.target (codes "http://localhost:8880/challenge")
      then 403
      else if text_eq (location_of call.target) []
      then 200
      else 302;
  header = λ name.
      if text_eq name (codes "Location")
      then location_of call.target
      else codes "application/javascript";
  body = some (
      codes "src=\"/captcha-protect-cap.js\" class=\"cap\" data-sitekey=\"site\""
      ++ codes "var CAP_URL = \"/cap\"; data-execution=\"execute\" /captcha-protect-poj.js");
}

-- Each call takes a second.
abbrev working : Outer
working = record {
  W = ℕ;
  now = λ w. w;
  sleep = λ d w. w + d;
  docker = λ args w. ((true, codes "up"), w + second);
  is_url = λ t. true;
  send = λ client call w. (some (answer_to call), w + second);
  mkdir_all = λ w. (true, w);
  write_file = λ text w. (none, w);
  rename = λ w. (true, w);
}

working-IsClocked : IsClocked working
working-IsClocked = record {
  slept = λ d w. omega arith;
  ran = λ args w. omega arith;
  sent = λ client call w. omega arith;
  made = λ w. omega arith;
  wrote = λ text w. omega arith;
  moved = λ w. omega arith;
}

abbrev unset : Text → Text
unset name = []

abbrev as_is : Text → Text
as_is t = t

abbrev logged_in : Text → Option Login
logged_in t = some (record { success = true; session_token = codes "t"; hashed_token = codes "h" })

abbrev new_key : Text → Option SiteKey
new_key t = some (record { site_key = codes "site"; secret_key = codes "secret" })

abbrev idle : Driver working
idle = record { world = 0; tmp = none; dynamic = none }

main-IsLeft_example :
    IsLeft working (keys_url unset) new_key idle (main working unset as_is logged_in new_key idle)
main-IsLeft_example = main-IsLeft working-IsClocked unset as_is logged_in new_key idle

-- It says yes after five seconds.
abbrev soon : Run working Bool
soon s = (ok (leb (5 * second) s.world), s)

abbrev never : Run working Bool
never = pure false

wait_for-IsPolled_example :
    (n : ℕ) × (n ≤ 60) × IsPolled (0 + 120 * second) soon n idle (wait_for working soon idle)
wait_for-IsPolled_example = wait_for-IsPolled working-IsClocked soon (λ s. omega arith) idle

waited : (wait_for working soon idle).1.world ≡ 6 * second
unfolding wait_for captcha_protect.EndToEnd.Helpers.poll_loop
waited = refl

timed_out :
    wait_for working never idle
    ≡ (err (exit (codes "timed out waiting")), record idle { world = 120 * second })
unfolding wait_for captcha_protect.EndToEnd.Helpers.poll_loop
timed_out = refl

replaced :
    replace_loop ((codes "{{K}}", codes "v") ∷ []) 0 (codes "a: {{K}} {{J}}{{K}}")
    ≡ codes "a: v {{J}}v"
unfolding replace_loop captcha_protect.EndToEnd.Configs.find_pair captcha_protect.Base.starts_with
replaced = refl

encoded : base64 (codes "light wor") ++ base64 (codes "wo") ≡ codes "bGlnaHQgd29yd28="
unfolding base64
encoded = refl

passes : (main working unset as_is logged_in new_key idle).0 ≡ ok tt
unfolding main prepare compose ensure write_dynamic_config bring_online wait_for_status wait_for
    poll_loop get_status create_site_key post_json env_or expect check_protection wait_for_redirect
    request assert_http_challenge assert_contained contains_text text_eq starts_with
    assert_traefik_plugin_logs_clean compose_output assert_absent wait_for_body_contains encode_form
    marshal_map marshal_entries
passes = refl
