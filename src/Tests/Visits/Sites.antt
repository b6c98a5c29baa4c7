-- ===== src/Tests/Visits/Sites.antt =====
-- The three sites that the driver of the end-to-end test protects: their configurations, and how a
-- request reaches them and is answered.
use captcha_protect.Base.{
  ℕ, ◌==◌, Bool, true, false, List, [], ◌∷◌, ◌++◌, Option, none, some, Text, codes, text_eq,
  starts_with, if◌then◌else◌, ok, err,
}
use captcha_protect.Circuit.{turnstile_config}
use captcha_protect.Config.{Config, create_config}
use captcha_protect.Destination.{Url}
use captcha_protect.EndToEnd.{Call, Answer}
use captcha_protect.Middleware.{ChallengeData, Setup, Response}
use captcha_protect.Request.{Request}
use captcha_protect.Serve.Written.{written}
use captcha_protect.Startup.{missing, new_setup}

-- What the three middlewares of the configuration have in common, and in what they differ.
abbrev pub site_config : Config
site_config = record create_config {
  captcha_provider = codes "cap";
  site_key = codes "site";
  secret_key = codes "secret";
  cap_url = codes "/cap";
  cap_verify_url = codes "http://cap:3000/cap";
  window = 120;
  ip_forwarded_header = codes "X-Forwarded-For";
  log_level = codes "DEBUG";
  protect_routes = codes "/" ∷ [];
  enable_common_crawl_ip_check = codes "false";
  period_seconds = 2;
  failure_threshold = 2;
}

abbrev pub app_config : Text → Config
app_config app = record site_config {
  protect_routes = app ∷ [];
  challenge_url = app ++ codes "/challenge";
  period_seconds = 0;
  failure_threshold = 0;
}

abbrev pub parse_site_url : Text → Option Url
parse_site_url t = some (record {
  scheme = if starts_with t (codes "http://") then codes "http" else [];
  url_host = if starts_with t (codes "http://") then codes "cap:3000" else [];
  path = t;
  raw_query = [];
  fragment = [];
  request_uri = t;
})

abbrev pub setup_of : Config → Setup
setup_of c =
    elim (new_setup parse_site_url (λ t. t) (λ r. none) (λ t. true) missing
      (codes "captcha-protect") c) [
        | ok setup ↦ setup
        | err e ↦ record {
          name = [];
          config = c;
          captcha_config = turnstile_config;
          cap_js = [];
          exempt_ips = [];
          protect_routes_regex = [];
          exclude_routes_regex = [];
        }
      ]

-- A slash in a query.
abbrev pub escape_slashes : Text → Text
escape_slashes [] = []
escape_slashes (c ∷ t) = if c == b'/' then codes "%2F" ++ escape_slashes t else c ∷ escape_slashes t

-- The part of the page that comes from the template.
abbrev pub page_of : Text → ChallengeData → Text × Bool
page_of execution d = (
  codes "<script src=\""
      ++ (d.frontend_js
          ++ (codes "\"> <div class=\""
              ++ (d.frontend_key
                  ++ (codes "\" data-sitekey=\""
                      ++ (d.site_key
                          ++ (codes "\" data-execution=\"" ++ (execution ++ codes "\">"))))))),
  true,
)

abbrev pub header_of : List (Text × Text) → Text → Text
header_of [] name = []
header_of ((k, v) ∷ header) name = if text_eq k name then v else header_of header name

-- The request that reaches a middleware: the address is `http://localhost:8880` and a path.
abbrev pub request_of : Text → Text → Call → Request
request_of path query call = record {
  method = call.method;
  url_path = path;
  url_query = if text_eq query [] then [] else (codes "destination", query) ∷ [];
  url_host = [];
  host = codes "localhost:8880";
  request_uri = path ++ query;
  remote_addr = codes "172.18.0.1:99";
  tls = false;
  header = header_of call.header;
  cookie = λ name. none;
  form_value = λ name.
      if text_eq name (codes "cap-response")
      then codes "site:bogus:token"
      else if text_eq name (codes "destination")
      then codes "/"
      else [];
}

abbrev pub drop_text : Text → Text → Text
drop_text [] t = t
drop_text (c ∷ cs) [] = []
drop_text (c ∷ cs) (d ∷ t) = drop_text cs t

abbrev pub upto : ℕ → Text → Text
upto b [] = []
upto b (c ∷ t) = if c == b then [] else c ∷ upto b t

abbrev pub answered : Text → Response → Option Answer
answered execution response = elim (written (page_of execution) (λ s. []) response) [
  | none ↦ some (record { status = 200; header = λ name. []; body = some (codes "site") })
  | some w ↦ some (record { status = w.status; header = header_of w.header; body = some w.content })
]
