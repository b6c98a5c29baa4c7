-- ===== src/Tests.antt =====
-- A configuration, requests and an environment on which the tests and examples run.
mod Paths
mod Ranges
mod Visits
mod Storing
mod Driving
mod Crawling
mod Looping
mod Logging
use captcha_protect.Base.{ℕ, ◌*◌, List, [], ◌∷◌, Option, none, some, Bool, true, false, Text, codes}
use captcha_protect.Base.{text_eq, if◌then◌else◌}
use captcha_protect.Config.{Config, create_config}
use captcha_protect.Request.{Request}

-- An address and its port, behind a proxy.
abbrev pub wiki_config : Config
wiki_config = record create_config {
  ip_forwarded_header = codes "X-Forwarded-For";
  protect_routes = codes "/wiki" ∷ codes "/item" ∷ [];
  exclude_routes = codes "/wiki/static" ∷ [];
  protect_file_extensions = codes "html" ∷ [];
  protect_http_methods = codes "GET" ∷ [];
  good_bots = codes ".Googlebot.com" ∷ [];
  exempt_user_agents = codes "edgee" ∷ [];
  site_key = codes "site";
  secret_key = codes "secret";
  period_seconds = 30;
  failure_threshold = 2;
}

abbrev pub request_for : Text → Text → Request
request_for path forwarded = record {
  method = codes "GET";
  url_path = path;
  url_query = [];
  url_host = [];
  host = codes "example.org:443";
  request_uri = path;
  remote_addr = codes "10.0.0.1:99";
  tls = true;
  header = λ name. if text_eq name (codes "X-Forwarded-For") then forwarded else [];
  cookie = λ _. none;
  form_value = λ _. [];
}
