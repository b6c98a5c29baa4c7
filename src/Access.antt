-- ===== src/Access.antt =====
-- Who is challenged: `isGoodBot` and `shouldApply` of main.go.
pub mod Bot
pub mod Protected
pub mod Challenged
use captcha_protect.Base.{
  ℕ, Bool, true, false, not, ◌&&◌, ◌||◌, List, [], ◌∷◌, ◌++◌, any, Option, none, some, Text, codes,
}
use captcha_protect.Base.{text_eq, if◌then◌else◌, ◌==◌, length, ltb}
use captcha_protect.Net.{IpNet, parse_ip}
use captcha_protect.Config.{Config}
use captcha_protect.Request.{Request, user_agent}
use captcha_protect.Cache.{Cache, default_expiration}
use captcha_protect.ClientIp.{is_ip_excluded}
use captcha_protect.Session.{session_cookie_name}
use captcha_protect.Routes.{
  route_is_protected_prefix, route_is_protected_suffix, route_is_protected_regex,
  is_good_user_agent,
}
use captcha_protect.Middleware.{Setup, State, ranges_contain}

abbrev pub is_true : Text → Bool
is_true option = text_eq option (codes "true")

-- An address that parses lies in a set that is present.
unfoldable pub in_ranges : Option (List IpNet) → Option ℕ → Bool
in_ranges (some ranges) (some ip) = ranges_contain ranges ip
in_ranges (some ranges) none = false
in_ranges none ip = false

-- The answers that need no lookup, or `none`.
unfoldable pub known_bot : {C : Cache} → Setup → State C → Request → Text → Option Bool
unfolding in_ranges
known_bot setup st req client_ip =
    let c = setup.config in
    let ip = parse_ip client_ip in
    if is_true c.enable_uptime_robot_bypass && in_ranges st.uptime_robot_ips ip
    then some true
    else if is_true c.protect_parameters && ltb 0 (length req.url_query)
    then some false
    else if is_true c.enable_common_crawl_ip_check && in_ranges st.common_crawl_ips ip
    then some true
    else if is_true c.enable_googlebot_ip_check && in_ranges st.googlebot_ips ip
    then some true
    else none

-- The key under which a visitor is verified.
unfoldable pub verification_key : Setup → Request → Text → Text
verification_key setup req client_ip =
    if text_eq setup.config.verification_mode (codes "session")
    then elim (req.cookie (session_cookie_name setup.name)) [
      | none ↦ []
      | some token ↦ codes "session:" ++ token
    ]
    else client_ip

-- The route test of the configured mode.
unfoldable pub route_is_protected : Setup → Text → Bool
route_is_protected setup path =
    if text_eq setup.config.mode (codes "regex")
    then route_is_protected_regex setup.config setup.protect_routes_regex setup.exclude_routes_regex
        path
    else if text_eq setup.config.mode (codes "suffix")
    then route_is_protected_suffix setup.config path
    else route_is_protected_prefix setup.config path

-- `lookup` is the field `goodBotLookup`, at the time of the call.
module _ (C : Cache) (lookup : Text → List Text → Bool) (setup : Setup) (now : ℕ) where
  unfoldable pub is_good_bot : State C → Request → Text → Bool × State C
  is_good_bot st req client_ip = elim (known_bot setup st req client_ip) [
    | some answer ↦ (answer, st)
    | none ↦ elim (C.get st.bot_cache now client_ip) [
      | some bot ↦ (bot, st)
      | none ↦
          let v = lookup client_ip setup.config.good_bots in
          (v, record st { bot_cache = C.set st.bot_cache now client_ip v default_expiration })
    ]
  ]

  -- The tests after the one for good bots.
  unfoldable pub unexempted : Request → Bool
  unexempted req =
      if is_good_user_agent setup.config (user_agent req)
      then false
      else route_is_protected setup req.url_path

  unfoldable pub should_apply : State C → Request → Text → Bool × State C
  unfolding unexempted
  should_apply st req client_ip =
      if not (any (λ method. text_eq method req.method) setup.config.protect_http_methods)
      then (false, st)
      else elim (C.get st.verified_cache now (verification_key setup req client_ip)) [
        | some verified ↦ (false, st)
        | none ↦
            if is_ip_excluded client_ip setup.exempt_ips
            then (false, st)
            else (let (bot, st') = is_good_bot st req client_ip in
                if bot then (false, st') else (unexempted req, st'))
      ]
