-- ===== src/Middleware.antt =====
-- The struct `CaptchaProtect` of main.go, in two records: what `NewCaptchaProtect` fixes, and what
-- the handlers and the background loops change. Also what the handlers answer.
use captcha_protect.Base.{ℕ, Bool, List, Text, Option, some, any}
use captcha_protect.Net.{IpNet, ip_net_contains}
use captcha_protect.Config.{Config}
use captcha_protect.Circuit.{CaptchaConfig, Breaker}
use captcha_protect.Cache.{Cache}
use captcha_protect.Routes.{Regexp}
use captcha_protect.Snapshot.{Snapshot}

pub record Setup : Type 0 where
  pub name : Text
  pub config : Config
  pub captcha_config : CaptchaConfig
  pub cap_js : Text
  pub exempt_ips : List IpNet
  pub protect_routes_regex : List Regexp
  pub exclude_routes_regex : List Regexp

-- The three sets of published address ranges are absent where the option is off.
pub record State (C : Cache) : Type 0 where
  pub verified_cache : C.State
  pub bot_cache : C.State
  pub breaker : Breaker
  pub googlebot_ips : Option (List IpNet)
  pub common_crawl_ips : Option (List IpNet)
  pub uptime_robot_ips : Option (List IpNet)
  pub state_dirty : ℕ  -- uint64
  pub state_saved_dirty : ℕ  -- uint64

-- `Contains` of the range sets.
unfoldable pub ranges_contain : List IpNet → ℕ → Bool
ranges_contain ranges ip = any (λ network. ip_net_contains network (some ip)) ranges

pub record Cookie : Type 0 where
  pub cookie_name : Text
  pub cookie_value : Text
  pub cookie_path : Text
  pub max_age : ℕ  -- int
  pub http_only : Bool
  pub secure : Bool
  pub same_site_lax : Bool

-- `challengeData`
pub record ChallengeData : Type 0 where
  pub site_key : Text
  pub frontend_js : Text
  pub frontend_key : Text
  pub challenge_url : Text
  pub destination : Text

-- What is written to the `http.ResponseWriter`, or `pass` where the next handler is called.
pub data Response : Type 0 where
  pass : Response
  javascript : Text → Response
  challenge_page : ℕ → ChallengeData → Response
  http_error : ℕ → Text → Response
  redirect : ℕ → Text → Option Cookie → Response
  stats : Snapshot → Response

-- `SetExemptIps`
unfoldable pub set_exempt_ips : List IpNet → Setup → Setup
set_exempt_ips exempt_ips setup = record setup { exempt_ips = exempt_ips }
