-- ===== src/Startup/Wellformed.antt =====
-- What every middleware that starts can rely on.
use captcha_protect.Base.{
  ◌≡◌, ◌≢◌, ◌∙◌, refl, ap, inl, inr, Bool, true, false, not, List, [], ◌++◌, Option, Text, codes,
  text_eq, text_eq_iff, ◌==◌, arith, Bool-cases, sle64, Result, ok, err, ◌>>=◌,
}
use captcha_protect.Config.{Config}
use captcha_protect.Circuit.{CaptchaConfig}
use captcha_protect.Destination.{Url}
use captcha_protect.Net.{IpNet}
use captcha_protect.Routes.{Regexp}
use captcha_protect.Middleware.{Setup}
use captcha_protect.Startup.{
  TemplateFile, has_template, SetupError, whole_site, bad_template, refuse, validate_config,
  route_regexes, complete_config, default_status, private_networks, parse_networks,
  new_cap_captcha_config, choose_provider, new_setup,
}

-- A chain that succeeds has succeeded at each step.
pub bind_ok :
    {E A B : Type 0} (r : Result E A) (f : A → Result E B) {b : B}
    → (r >>= f) ≡ ok b
    → (a : A) × (r ≡ ok a) × (f a ≡ ok b)
bind_ok (ok a) f h = (a, refl, h)
bind_ok (err e) f h = ground arith

pub refuse_ok :
    (test : Bool) (e : SetupError) (next : Result SetupError Config) {c : Config}
    → refuse test e next ≡ ok c
    → (test ≡ false) × (next ≡ ok c)
unfolding refuse
refuse_ok true e next h = ground arith
refuse_ok false e next h = (refl, h)

-- What the first tests ask of a configuration.
abbrev pub IsValid : Config → Type 0
IsValid c =
    (text_eq c.site_key [] ≡ false) × (text_eq c.secret_key [] ≡ false) × (sle64 c.window 0 ≡ false)

pub validate_config-IsValid :
    (c : Config) {v : Config} → validate_config c ≡ ok v → (v ≡ c) × IsValid c
unfolding validate_config
validate_config-IsValid c h =
    let (site, h) = refuse_ok _ _ _ h in
    let (secret, h) = refuse_ok _ _ _ h in
    let (window, h) = refuse_ok _ _ _ h in
    let (mode, h) = refuse_ok _ _ _ h in
    let (routes, h) = refuse_ok _ _ _ h in (ground arith, (site, secret, window))

-- A configuration with another status code.
default_status_only :
    (c : Config)
    → (default_status c
        ≡ record c { challenge_status_code = (default_status c).challenge_status_code })
      × ((default_status c).challenge_status_code ≢ 0)
unfolding default_status
default_status_only c = elim (Bool-cases (c.challenge_status_code == 0)) [
  | inl e ↦ rw e (refl, λ zero. ground arith)
  | inr e ↦ rw e (refl, λ zero. ground arith)
]

choose_provider-js :
    (parse_url : Text → Option Url) (path_escape : Text → Text) (c : Config)
    (captcha : CaptchaConfig) (c' : Config) (script : Text)
    → choose_provider parse_url path_escape c ≡ ok (captcha, c', script)
    → (captcha.js ≢ [])
      × (c' ≡ record c { cap_url = c'.cap_url; cap_verify_url = c'.cap_verify_url })
unfolding choose_provider new_cap_captcha_config
choose_provider-js parse_url path_escape c captcha c' script h =
    ((λ none. ground (arith, text_eq_iff captcha.js [])), ground arith)

abbrev with_urls : Config → Config → Config
with_urls urls c = record c { cap_url = urls.cap_url; cap_verify_url = urls.cap_verify_url }

config_chain :
    {s c' c2 c : Config}
    → s ≡ c'
    → c' ≡ record (default_status c2) { cap_url = c'.cap_url; cap_verify_url = c'.cap_verify_url }
    → c2 ≡ c
    → s ≡ record c {
      challenge_status_code = (default_status c).challenge_status_code;
      cap_url = s.cap_url;
      cap_verify_url = s.cap_verify_url;
    }
config_chain {s} {c'} {c2} {c} e urls same =
    rw (e, ← same) (urls ∙ ap (with_urls c') (default_status_only c2).0)

networks_chain :
    (c config : Config) {networks exempt : List IpNet}
    → exempt ≡ networks
    → c ≡ complete_config config
    → parse_networks (private_networks ++ c.exempt_ips) ≡ ok networks
    → parse_networks (private_networks ++ config.exempt_ips) ≡ ok exempt
unfolding complete_config
networks_chain c config same completed parsed =
    rw (same, ← ap (λ (d : Config). d.exempt_ips) completed) parsed

-- The configuration of a middleware, where the one given is valid and complete with the defaults.
pub setup_config :
    (parse_url : Text → Option Url) (path_escape : Text → Text) (compile : Text → Option Regexp)
    (parses : Text → Bool) (file : TemplateFile) (name : Text) (config : Config) (setup : Setup)
    → new_setup parse_url path_escape compile parses file name config ≡ ok setup
    → IsValid config
      × (text_eq config.challenge_url (codes "/") ≡ false)
      × (setup.captcha_config.js ≢ [])
      × (parse_networks (private_networks ++ config.exempt_ips) ≡ ok setup.exempt_ips)
      × (setup.config ≡ record (complete_config config) {
        challenge_status_code = (default_status (complete_config config)).challenge_status_code;
        cap_url = setup.config.cap_url;
        cap_verify_url = setup.config.cap_verify_url;
      })
unfolding new_setup
setup_config parse_url path_escape compile parses file name config setup h =
    let (valid, checked, h) = bind_ok (validate_config config) _ h in
    let (same, is_valid) = validate_config-IsValid config checked in
    let (regexes, _, h) = bind_ok (route_regexes compile valid) _ h in
    let (c, completed, h) =
      bind_ok
        (refuse (text_eq valid.challenge_url (codes "/")) whole_site (ok (complete_config valid))) _
        h in
    let (not_root, completed) = refuse_ok _ _ _ completed in
    let (c2, templated, h) =
      bind_ok (refuse (not (has_template parses file)) bad_template (ok c)) _ h in
    let (_, templated) = refuse_ok _ _ _ templated in
    let (networks, parsed, h) = bind_ok (parse_networks (private_networks ++ c2.exempt_ips)) _ h in
    let ((captcha, c', script), chosen, h) =
      bind_ok (choose_provider parse_url path_escape (default_status c2)) _ h in
    let (has_js, urls) =
      choose_provider-js parse_url path_escape (default_status c2) captcha c' script chosen in
    let config_is : setup.config ≡ c' = ground arith in
    let captcha_is : setup.captcha_config ≡ captcha = ground arith in
    let networks_are : setup.exempt_ips ≡ networks = ground arith in
    let c_is : c2 ≡ complete_config config = ground arith in
    (
      is_valid,
      rw (← same) not_root,
      rw captcha_is has_js,
      networks_chain c2 config networks_are c_is parsed,
      config_chain config_is urls c_is,
    )
