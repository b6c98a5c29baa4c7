-- ===== src/Tests/Storing/Starting.antt =====
-- Tests of the start, with the theorems at concrete data.
use captcha_protect.Base.{
  ℕ, ◌+◌, ◌*◌, ◌<◌, ◌≤◌, ◌≡◌, ◌≢◌, ◌↔◌, ◌⊎◌, inl, inr, refl, List, [], ◌∷◌, ◌++◌, Option, none,
  some, Bool, true, false, Text, codes, text_eq, if◌then◌else◌, arith, All, Any, ltb, u64_mod, ok,
  err,
}
use captcha_protect.Cache.Memory.{memory_cache}
use captcha_protect.Circuit.{new_breaker, turnstile_config}
use captcha_protect.Destination.{Url}
use captcha_protect.Net.{parse_ip, parse_cidr}
use captcha_protect.Middleware.{Setup}
use captcha_protect.Access.{should_apply}
use captcha_protect.Startup.{missing, new_setup, private_networks}
use captcha_protect.Startup.Accepted.{IsAccepted, new_setup_iff}
use captcha_protect.Startup.Exempt.{InNetwork, should_apply-new_setup}
use captcha_protect.Encoding.{marshal_string}
use captcha_protect.Encoding.Harmless.{IsHarmless}
use captcha_protect.Persist.Reader.{◌>>=◌, expect, read_string}
use captcha_protect.Scripts.{get_cap_js, cap_js_begin, cap_js_body}
use captcha_protect.Scripts.Contained.{get_cap_js_contained}
use captcha_protect.Tests.{wiki_config, request_for}
use captcha_protect.Tests.Storing.{empty_state}

abbrev parse_url : Text → Option Url
parse_url t = none

abbrev started : Setup
started =
    elim (new_setup parse_url (λ t. t) (λ r. none) (λ t. true) missing (codes "captcha")
      wiki_config) [
        | ok setup ↦ setup
        | err e ↦ record {
          name = [];
          config = wiki_config;
          captcha_config = turnstile_config;
          cap_js = [];
          exempt_ips = [];
          protect_routes_regex = [];
          exclude_routes_regex = [];
        }
      ]

starts :
    new_setup parse_url (λ t. t) (λ r. none) (λ t. true) missing (codes "captcha") wiki_config
    ≡ ok started
unfolding new_setup captcha_protect.Startup.validate_config captcha_protect.Startup.refuse text_eq
    captcha_protect.Startup.route_regexes captcha_protect.Startup.parse_networks parse_cidr
    captcha_protect.Base.index_byte captcha_protect.Base.any captcha_protect.Base.parse_decimal
    captcha_protect.Startup.complete_config captcha_protect.Startup.choose_provider
    captcha_protect.Startup.has_template captcha_protect.Startup.template_text
    captcha_protect.Startup.default_status captcha_protect.Circuit.get_captcha_config
starts = refl

new_setup_iff_example :
    ((setup : Setup) × (new_setup parse_url
          (λ t. t)
          (λ r. none)
          (λ t. true)
          missing
          (codes "captcha")
          wiki_config
        ≡ ok setup))
    ↔ IsAccepted parse_url (λ t. t) (λ r. none) (λ t. true) missing wiki_config
new_setup_iff_example =
    new_setup_iff parse_url (λ t. t) (λ r. none) (λ t. true) missing (codes "captcha") wiki_config

wiki_passes : IsAccepted parse_url (λ t. t) (λ r. none) (λ t. true) missing wiki_config
wiki_passes =
    (new_setup_iff parse_url (λ t. t) (λ r. none) (λ t. true) missing (codes "captcha")
        wiki_config).0
      (started, starts)

private_ip : parse_ip (codes "10.1.2.3") ≡ some 0xffff_0a01_0203
unfolding parse_ip captcha_protect.Base.any captcha_protect.Base.parse_decimal
private_ip = refl

in_private : Any (InNetwork 0xffff_0a01_0203) private_networks
unfolding parse_cidr captcha_protect.Base.index_byte captcha_protect.Base.any
    captcha_protect.Base.parse_decimal captcha_protect.Net.ip_net_contains
in_private = inr (inl (record { short = true; network = 0x0a00_0000; ones = 8 }, refl, refl))

should_apply-new_setup_example :
    should_apply memory_cache
      (λ ip bots. false)
      started
      0
      empty_state
      (request_for (codes "/wiki/a") [])
      (codes "10.1.2.3")
    ≡ (false, empty_state)
should_apply-new_setup_example =
    should_apply-new_setup parse_url (λ t. t) (λ r. none) (λ t. true) missing (codes "captcha")
      wiki_config started memory_cache (λ ip bots. false) 0 empty_state
      (request_for (codes "/wiki/a") []) (codes "10.1.2.3") 0xffff_0a01_0203 starts private_ip
      in_private

-- A URL with characters that would end the literal and the script.
abbrev hostile_url : Text
hostile_url = codes "/cap\"</script>"

get_cap_js_contained_example :
    ((expect cap_js_begin (get_cap_js hostile_url) >>= read_string)
      ≡ some (hostile_url, codes ";\n" ++ cap_js_body))
    × All IsHarmless (marshal_string hostile_url)
unfolding captcha_protect.Encoding.valid_loop captcha_protect.Encoding.rune_tail
get_cap_js_contained_example = get_cap_js_contained hostile_url refl
