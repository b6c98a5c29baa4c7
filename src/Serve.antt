-- ===== src/Serve.antt =====
-- `ServeHTTP` of main.go, with `serveChallengePage` and `serveStatsPage`.
pub mod Challenge
pub mod Verified
pub mod Expired
pub mod Visits
pub mod History
pub mod Written
use captcha_protect.Base.{
  ℕ, Bool, true, false, not, ◌&&◌, List, [], ◌∷◌, ◌++◌, Option, none, some, Text, codes, text_eq,
  if◌then◌else◌,
}
use captcha_protect.Config.{Config, challenge_on_page}
use captcha_protect.Request.{Request}
use captcha_protect.Cache.{Cache}
use captcha_protect.Circuit.{get_active_captcha_config}
use captcha_protect.ClientIp.{get_client_ip, is_ip_excluded}
use captcha_protect.Middleware.{
  Setup, State, Response, pass, javascript, challenge_page, http_error, redirect, stats,
}
use captcha_protect.Snapshot.{get_state}
use captcha_protect.Access.{should_apply, is_true}
use captcha_protect.Scripts.{get_poj_js}
use captcha_protect.Verify.{Outside, verify_challenge_page}

-- `URL.Query().Get(key)`: the first value of a key, or the empty text.
unfoldable pub query_get : List (Text × Text) → Text → Text
query_get [] key = []
query_get ((k, v) ∷ query) key = let rest = query_get query key in if text_eq k key then v else rest

abbrev pub poj_js_path : Text
poj_js_path = codes "/captcha-protect-poj.js"

abbrev pub cap_js_path : Text
cap_js_path = codes "/captcha-protect-cap.js"

abbrev pub stats_path : Text
stats_path = codes "/captcha-protect/stats"

-- Where a request is handled.
pub data Endpoint : Type 0 where
  poj_script cap_script verification page wrong_method statistics site : Endpoint

unfoldable pub is_method : Request → Text → Bool
is_method req method = text_eq req.method method

-- The tests of `ServeHTTP` in their order. A POST on a page that challenges in place and has no
-- `challenge` parameter goes on to the site.
unfoldable pub endpoint : Setup → Request → Endpoint
endpoint setup req =
    if text_eq req.url_path poj_js_path
    then poj_script
    else if not (text_eq setup.cap_js []) && text_eq req.url_path cap_js_path
    then cap_script
    else if challenge_on_page setup.config && is_method req (codes "POST")
    then (if not (text_eq (query_get req.url_query (codes "challenge")) [])
        then verification
        else site)
    else if text_eq req.url_path setup.config.challenge_url
    then (if is_method req (codes "GET")
        then page
        else if is_method req (codes "POST")
        then verification
        else wrong_method)
    else if text_eq req.url_path stats_path && is_true setup.config.enable_stats_page
    then statistics
    else site

-- `query_escape` is `url.QueryEscape`.
module _ (C : Cache) (lookup : Text → List Text → Bool) (query_escape : Text → Text) where
  unfoldable pub serve_challenge_page : Setup → State C → Text → Response
  serve_challenge_page setup st destination =
      let active = get_active_captcha_config setup.config setup.captcha_config st.breaker in
      challenge_page setup.config.challenge_status_code (record {
        site_key = setup.config.site_key;
        frontend_js = active.js;
        frontend_key = active.key;
        challenge_url = setup.config.challenge_url;
        destination = destination;
      })

  unfoldable pub serve_stats_page : Setup → State C → ℕ → Text → Response
  serve_stats_page setup st now ip =
      if not (is_ip_excluded ip setup.exempt_ips)
      then http_error 403 (codes "Forbidden")
      else stats (get_state (C.items st.verified_cache now))

  -- What a request gets that must be challenged.
  unfoldable pub challenge : Setup → State C → Request → Response
  challenge setup st req =
      let encoded_uri = query_escape req.request_uri in
      if challenge_on_page setup.config
      then serve_challenge_page setup st encoded_uri
      else redirect 302 (setup.config.challenge_url ++ (codes "?destination=" ++ encoded_uri)) none

  unfoldable pub serve_site : Setup → ℕ → State C → Request → Text → Response × State C
  serve_site setup now st req client_ip =
      let (applies, st') = should_apply C lookup setup now st req client_ip in
      if not applies then (pass, st') else (challenge setup st' req, st')

  unfoldable pub serve_at :
      Endpoint → Setup → Outside → ℕ → State C → Request → Text → Response × State C
  serve_at poj_script setup out now st req client_ip = (javascript get_poj_js, st)
  serve_at cap_script setup out now st req client_ip = (javascript setup.cap_js, st)
  serve_at verification setup out now st req client_ip =
      verify_challenge_page C setup out now req st client_ip
  serve_at page setup out now st req client_ip =
      (serve_challenge_page setup st (query_get req.url_query (codes "destination")), st)
  serve_at wrong_method setup out now st req client_ip =
      (http_error 405 (codes "Method not allowed"), st)
  serve_at statistics setup out now st req client_ip = (serve_stats_page setup st now client_ip, st)
  serve_at site setup out now st req client_ip = serve_site setup now st req client_ip

  unfoldable pub serve_http : Setup → Outside → ℕ → State C → Request → Response × State C
  serve_http setup out now st req =
      serve_at (endpoint setup req) setup out now st req
        (get_client_ip setup.config setup.exempt_ips req)
