-- ===== src/Startup.antt =====
-- `NewCaptchaProtect` of main.go with `newCapCaptchaConfig`: a configuration is refused, or
-- completed and turned into a middleware. `parse_url`, `path_escape` and `compile` are
-- `url.Parse`, `url.PathEscape` and `regexp.Compile`.
pub mod Wellformed
pub mod Accepted
pub mod Guards
pub mod Providers
pub mod Exempt
pub mod Restart
use captcha_protect.Base.{
  ℕ, ◌*◌, ◌%◌, Bool, true, false, not, ◌&&◌, ◌||◌, List, [], ◌∷◌, ◌++◌, map, any, length, Option,
  none, some, Text, codes, text_eq, to_lower, starts_with, trim_space, trim_right, if◌then◌else◌,
  ◌==◌, sle64, u64_mod, Result, ok, err, ◌>>=◌,
}
use captcha_protect.Config.{Config, challenge_on_page}
use captcha_protect.Net.{IpNet, parse_cidr}
use captcha_protect.Cache.{Cache}
use captcha_protect.Circuit.{CaptchaConfig, get_captcha_config, new_breaker}
use captcha_protect.Destination.{Url}
use captcha_protect.Routes.{Regexp}
use captcha_protect.Snapshot.{CacheEntry}
use captcha_protect.Middleware.{Setup, State}
use captcha_protect.Persist.{load_state_from_file}
use captcha_protect.Crawlers.{new_googlebot_ips, new_common_crawl_ips, new_uptime_robot_ips}
use captcha_protect.Access.{is_true}
use captcha_protect.Scripts.{get_cap_js, get_default_tmpl}
use captcha_protect.Serve.{cap_js_path}
use captcha_protect.Verify.{second}

-- Why a configuration is refused.
pub data SetupError : Type 0 where
  no_site_key no_secret_key bad_window bad_verification_mode no_routes bad_regex : SetupError
  unknown_mode whole_site bad_template bad_cidr bad_cap unknown_provider : SetupError

module _ (parse_url : Text → Option Url) where
  unfoldable pub is_http_url : Text → Bool
  is_http_url s = elim (parse_url s) [
    | none ↦ false
    | some u ↦
        (text_eq u.scheme (codes "http") || text_eq u.scheme (codes "https"))
        && (not (text_eq u.url_host []) && (text_eq u.raw_query [] && text_eq u.fragment []))
  ]

  unfoldable pub is_root_relative_path : Text → Bool
  is_root_relative_path s =
      if not (starts_with s (codes "/")) || starts_with s (codes "//")
      then false
      else elim (parse_url s) [
        | none ↦ false
        | some u ↦
            text_eq u.scheme []
            && (text_eq u.url_host [] && (text_eq u.raw_query [] && text_eq u.fragment []))
      ]

-- A base URL without surrounding space and without slashes at its end.
unfoldable pub base_url : Text → Text
base_url s = trim_right (λ c. c == b'/') (trim_space s)

module _ (parse_url : Text → Option Url) (path_escape : Text → Text) where
  abbrev pub cap_config_of : Config → Text → CaptchaConfig
  cap_config_of c verify_url = record {
    js = cap_js_path;
    key = codes "cap";
    validate = verify_url ++ (b'/' ∷ (path_escape c.site_key ++ codes "/siteverify"));
    health_url = verify_url ++ codes "/assets/widget.js";
  }

  -- The URL for the middleware, given the one for the browser.
  unfoldable pub cap_verify_base : Config → Text → Option Text
  cap_verify_base c cap_base =
      if text_eq (base_url c.cap_verify_url) []
      then (if not (is_http_url parse_url cap_base) then none else some cap_base)
      else some (base_url c.cap_verify_url)

  -- The provider, and the configuration with the URLs in their normal form.
  unfoldable pub new_cap_captcha_config : Config → Option (CaptchaConfig × Config)
  new_cap_captcha_config c =
      let cap_base = base_url c.cap_url in
      if text_eq cap_base []
      then none
      else if not (is_http_url parse_url cap_base) && not (is_root_relative_path parse_url cap_base)
      then none
      else elim (cap_verify_base c cap_base) [
        | none ↦ none
        | some verify_url ↦
            if not (is_http_url parse_url verify_url)
            then none
            else some (
              cap_config_of c verify_url,
              record c { cap_url = cap_base; cap_verify_url = verify_url },
            )
      ]

-- A test that refuses the configuration.
unfoldable pub refuse : Bool → SetupError → Result SetupError Config → Result SetupError Config
refuse true e next = err e
refuse false e next = next

-- The tests at the beginning, in their order.
unfoldable pub validate_config : Config → Result SetupError Config
validate_config c = refuse (text_eq c.site_key []) no_site_key (
    refuse (text_eq c.secret_key []) no_secret_key (
      refuse (sle64 c.window 0) bad_window (
        refuse
          (not (text_eq c.verification_mode [])
            && (not (text_eq c.verification_mode (codes "ip"))
                && not (text_eq c.verification_mode (codes "session"))))
          bad_verification_mode
          (refuse (length c.protect_routes == 0 && not (text_eq c.mode (codes "suffix"))) no_routes
            (ok c)))))

unfoldable pub compile_all : (Text → Option Regexp) → List Text → Result SetupError (List Regexp)
compile_all compile [] = ok []
compile_all compile (r ∷ routes) = elim (compile r) [
  | none ↦ err bad_regex
  | some regexp ↦ compile_all compile routes >>= λ rest. ok (regexp ∷ rest)
]

-- The expressions for the protected and for the excluded routes.
unfoldable pub route_regexes :
    (Text → Option Regexp) → Config → Result SetupError (List Regexp × List Regexp)
route_regexes compile c =
    if text_eq c.mode (codes "regex")
    then (compile_all compile c.protect_routes >>= λ protect.
        compile_all compile c.exclude_routes >>= λ exclude. ok (protect, exclude))
    else if not (text_eq c.mode (codes "prefix")) && not (text_eq c.mode (codes "suffix"))
    then err unknown_mode
    else ok ([], [])

-- The defaults that depend on other options: user agents in lower case, the challenge in place, the
-- methods, and HTML files.
unfoldable pub complete_config : Config → Config
complete_config c = record c {
  exempt_user_agents = map to_lower c.exempt_user_agents;
  challenge_url = if text_eq c.challenge_url [] then codes "?challenge=true" else c.challenge_url;
  protect_http_methods =
      if length c.protect_http_methods == 0
      then codes "GET" ∷ codes "HEAD" ∷ []
      else c.protect_http_methods;
  protect_file_extensions =
      if not (any (λ e. text_eq e (codes "html")) c.protect_file_extensions)
      then c.protect_file_extensions ++ (codes "html" ∷ [])
      else c.protect_file_extensions;
}

unfoldable pub default_status : Config → Config
default_status c =
    if c.challenge_status_code == 0
    then record c { challenge_status_code = if challenge_on_page c then 429 else 200 }
    else c

-- The networks that are always exempt.
abbrev pub private_networks : List Text
private_networks =
    codes "127.0.0.0/8"
    ∷ codes "10.0.0.0/8"
    ∷ codes "172.16.0.0/12"
    ∷ codes "192.168.0.0/16"
    ∷ codes "fc00::/8"
    ∷ []

unfoldable pub parse_networks : List Text → Result SetupError (List IpNet)
parse_networks [] = ok []
parse_networks (ip ∷ ips) = elim (parse_cidr ip) [
  | none ↦ err bad_cidr
  | some network ↦ parse_networks ips >>= λ rest. ok (network ∷ rest)
]

-- What is found of the template file: it is not there, it cannot be looked at or read, or its text.
pub data TemplateFile : Type 0 where
  missing unreadable : TemplateFile
  present : Text → TemplateFile

-- The text that is parsed as the template.
unfoldable pub template_text : TemplateFile → Option Text
template_text missing = some get_default_tmpl
template_text unreadable = none
template_text (present t) = some t

-- Whether there is a template, where `parses` says which texts the package accepts.
unfoldable pub has_template : (Text → Bool) → TemplateFile → Bool
has_template parses file = elim (template_text file) [ none ↦ false | some t ↦ parses t ]

module _ (parse_url : Text → Option Url) (path_escape : Text → Text) where
  -- The provider, the configuration with its URLs, and the script for Cap.
  unfoldable pub choose_provider : Config → Result SetupError (CaptchaConfig × Config × Text)
  choose_provider c =
      if text_eq c.captcha_provider (codes "cap")
      then elim (new_cap_captcha_config parse_url path_escape c) [
        | none ↦ err bad_cap
        | some (captcha, c') ↦ ok (captcha, c', get_cap_js c'.cap_url)
      ]
      else (let captcha = get_captcha_config c.captcha_provider in
          if text_eq captcha.js [] then err unknown_provider else ok (captcha, c, []))

  module _ (compile : Text → Option Regexp) (parses : Text → Bool) (file : TemplateFile) where
    -- What is fixed: from the configuration, the parts in the order of the code.
    unfoldable pub new_setup : Text → Config → Result SetupError Setup
    new_setup name config = validate_config config >>= λ valid.
        route_regexes compile valid >>= λ (protect, exclude).
        refuse (text_eq valid.challenge_url (codes "/")) whole_site (ok (complete_config valid))
        >>= λ c. refuse (not (has_template parses file)) bad_template (ok c) >>= λ c.
            parse_networks (private_networks ++ c.exempt_ips) >>= λ networks.
            choose_provider (default_status c) >>= λ (captcha, c', script). ok (record {
              name = name;
              config = c';
              captcha_config = captcha;
              cap_js = script;
              exempt_ips = networks;
              protect_routes_regex = protect;
              exclude_routes_regex = exclude;
            })

-- The state at the start: both caches keep an entry for the window, and the verified visitors are
-- read from the state file if there is one.
module _ (C : Cache) (unmarshal : Text → Option (List (Text × CacheEntry))) where
  abbrev pub window_duration : Config → ℕ
  window_duration c = c.window * second % u64_mod

  abbrev ranges_at_start : Text → List IpNet → Option (List IpNet)
  ranges_at_start option ranges = if is_true option then some ranges else none

  -- The cache after the state file, which may not be readable, is loaded.
  abbrev pub load_state_from : Bool → Option Text → ℕ → C.State → C.State
  load_state_from locked file now cache = (load_state_from_file C unmarshal locked file now cache).1

  unfoldable pub new_state : Config → Bool → Option Text → ℕ → State C
  new_state c locked file now = record {
    verified_cache =
        if text_eq c.persistent_state_file []
        then C.empty (window_duration c)
        else load_state_from locked file now (C.empty (window_duration c));
    bot_cache = C.empty (window_duration c);
    breaker = new_breaker;
    googlebot_ips = ranges_at_start c.enable_googlebot_ip_check new_googlebot_ips;
    common_crawl_ips = ranges_at_start c.enable_common_crawl_ip_check new_common_crawl_ips;
    uptime_robot_ips = ranges_at_start c.enable_uptime_robot_bypass new_uptime_robot_ips;
    state_dirty = 0;
    state_saved_dirty = 0;
  }
