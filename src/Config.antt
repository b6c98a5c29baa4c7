-- ===== src/Config.antt =====
-- `Config` of main.go, with the defaults of `CreateConfig`. Strings are byte texts; the Go
-- integers are 64-bit patterns (Base/Words).
use captcha_protect.Base.{ℕ, Text, codes, List, [], Bool, text_eq}

pub record Config : Type 0 where
  pub window : ℕ  -- int64
  pub verification_mode : Text
  pub ip_forwarded_header : Text
  pub ip_depth : ℕ  -- int
  pub protect_parameters : Text
  pub protect_routes : List Text
  pub exclude_routes : List Text
  pub protect_file_extensions : List Text
  pub protect_all_extensions : Text
  pub protect_http_methods : List Text
  pub good_bots : List Text
  pub exempt_ips : List Text
  pub exempt_user_agents : List Text
  pub challenge_url : Text
  pub challenge_tmpl : Text
  pub challenge_status_code : ℕ  -- int
  pub captcha_provider : Text
  pub site_key : Text
  pub secret_key : Text
  pub cap_url : Text
  pub cap_verify_url : Text
  pub enable_stats_page : Text
  pub log_level : Text
  pub persistent_state_file : Text
  pub enable_googlebot_ip_check : Text
  pub enable_common_crawl_ip_check : Text
  pub enable_uptime_robot_bypass : Text
  pub mode : Text
  pub period_seconds : ℕ  -- int
  pub failure_threshold : ℕ  -- int

abbrev pub create_config : Config
create_config = record {
  window = 86400;
  verification_mode = codes "ip";
  ip_forwarded_header = [];
  ip_depth = 0;
  protect_parameters = codes "false";
  protect_routes = [];
  exclude_routes = [];
  protect_file_extensions = [];
  protect_all_extensions = codes "false";
  protect_http_methods = [];
  good_bots = [];
  exempt_ips = [];
  exempt_user_agents = [];
  challenge_url = codes "/challenge";
  challenge_tmpl = codes "challenge.tmpl.html";
  challenge_status_code = 0;
  captcha_provider = codes "turnstile";
  site_key = [];
  secret_key = [];
  cap_url = [];
  cap_verify_url = [];
  enable_stats_page = codes "false";
  log_level = codes "INFO";
  persistent_state_file = [];
  enable_googlebot_ip_check = codes "false";
  enable_common_crawl_ip_check = codes "true";
  enable_uptime_robot_bypass = codes "false";
  mode = codes "prefix";
  period_seconds = 0;
  failure_threshold = 0;
}

-- `ChallengeOnPage`
unfoldable pub challenge_on_page : Config → Bool
challenge_on_page c = text_eq c.challenge_url (codes "?challenge=true")
