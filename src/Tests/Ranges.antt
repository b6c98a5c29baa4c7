-- ===== src/Tests/Ranges.antt =====
-- Tests of addresses and prefixes, of the lookup of bots and of the circuit breaker, with the
-- theorems at concrete data.
use captcha_protect.Base.{
  ℕ, ◌≡◌, ◌≤◌, ◌↔◌, refl, List, [], ◌∷◌, Option, none, some, Bool, true, false, Text, codes,
  text_eq, if◌then◌else◌, arith, leb, All, AllPairs, Any,
}
use captcha_protect.Net.{
  Addr, v4, v6, Prefix, parse_addr, parse_ip, parse_prefix, prefix_string, prefix_contains,
  split_host_port, parse_cidr, ip_net_contains,
}
use captcha_protect.Cidr.{covers, reduce_prefixes, reduce_cidrs}
use captcha_protect.Cidr.Reduce.{contained, reduce_prefixes-contained, reduce_prefixes-antichain}
use captcha_protect.Bots.{is_ip_good_bot}
use captcha_protect.Bots.Confirmed.{GoodBot, is_ip_good_bot_iff}
use captcha_protect.Circuit.{
  Breaker, CaptchaConfig, new_breaker, circuit_open, answer, no_answer, turnstile_config,
  poj_config, get_active_captcha_config,
}
use captcha_protect.Circuit.Trips.{
  Event, tick, provider_error, apply_events, circuit_open_iff, get_active_captcha_config-events,
}
use captcha_protect.Tests.{wiki_config}

address_runs :
    (parse_ip (codes "192.168.1.1") ≡ some 0xffff_c0a8_0101)
    × (parse_ip (codes "192.168.1.256") ≡ none)
    × (parse_ip (codes "::1") ≡ some 1)
    × (parse_addr (codes "2001:db8::2") ≡ some (v6 0x2001_0db8_0000_0000_0000_0000_0000_0002))
    × (split_host_port (codes "[::1]:80") ≡ some (codes "::1"))
    × (split_host_port (codes "::1") ≡ none)
unfolding parse_ip captcha_protect.Base.any captcha_protect.Base.parse_decimal split_host_port
address_runs = (refl, refl, refl, refl, refl, refl)

reduce_runs :
    reduce_cidrs (
      codes "10.1.2.3/16"
      ∷ codes "2001:db8::/32"
      ∷ codes "bad"
      ∷ codes "10.0.0.0/8"
      ∷ codes "192.0.2.0/24"
      ∷ codes "2001:db8:1::/48"
      ∷ [])
    ≡ codes "10.0.0.0/8" ∷ codes "192.0.2.0/24" ∷ codes "2001:db8::/32" ∷ []
unfolding reduce_cidrs parse_prefix captcha_protect.Base.last_index_byte parse_addr
    captcha_protect.Base.any captcha_protect.Base.parse_decimal captcha_protect.Cidr.less
    captcha_protect.Net.masked covers prefix_contains prefix_string
reduce_runs = refl

abbrev broad : Prefix
broad = record { addr = v4 0x0a00_0000; bits = 8 }

abbrev narrow : Prefix
narrow = record { addr = v4 0x0a01_0000; bits = 16 }

reduce_prefixes-contained_example :
    contained (v4 0x0a01_0203) (reduce_prefixes (narrow ∷ broad ∷ []))
    ≡ contained (v4 0x0a01_0203) (narrow ∷ broad ∷ [])
reduce_prefixes-contained_example = reduce_prefixes-contained (v4 0x0a01_0203) (narrow ∷ broad ∷ [])

reduce_prefixes-antichain_example :
    AllPairs
      (λ p q. (covers p q ≡ false) × (covers q p ≡ false))
      (reduce_prefixes (narrow ∷ broad ∷ []))
reduce_prefixes-antichain_example = reduce_prefixes-antichain (narrow ∷ broad ∷ [])

abbrev bots : List Text
bots = codes ".Googlebot.com" ∷ []

abbrev lookup_addr : Text → Option (List Text)
lookup_addr ip =
    if text_eq ip (codes "192.0.2.1")
    then some (codes "Crawl.Googlebot.com." ∷ [])
    else if text_eq ip (codes "192.0.2.2")
    then some (codes "evilgooglebot.com." ∷ [])
    else none

abbrev lookup_ip : Text → Option (List ℕ)
lookup_ip name =
    if text_eq name (codes "crawl.googlebot.com") then some (0xffff_c000_0201 ∷ []) else none

bot_runs :
    (is_ip_good_bot lookup_addr lookup_ip (codes "192.0.2.1") bots ≡ true)
    × (is_ip_good_bot lookup_addr lookup_ip (codes "192.0.2.2") bots ≡ false)
    × (is_ip_good_bot lookup_addr lookup_ip (codes "192.0.2.3") bots ≡ false)
unfolding is_ip_good_bot parse_ip captcha_protect.Base.any captcha_protect.Base.parse_decimal
    text_eq captcha_protect.Base.to_lower captcha_protect.Base.trim captcha_protect.Base.trim_space
    captcha_protect.Base.trim_suffix
bot_runs = (refl, refl, refl)

is_ip_good_bot_example :
    (is_ip_good_bot lookup_addr lookup_ip (codes "192.0.2.1") bots ≡ true)
    ↔ GoodBot lookup_addr lookup_ip (codes "192.0.2.1") bots
is_ip_good_bot_example = is_ip_good_bot_iff lookup_addr lookup_ip (codes "192.0.2.1") bots

-- A success, two failures, and one more.
abbrev outage : List Event
outage = tick (answer 200) ∷ tick no_answer ∷ provider_error ∷ tick (answer 503) ∷ []

circuit_open_example :
    let b = apply_events wiki_config turnstile_config outage new_breaker in
    (b.health_check_failure_count ≡ 3) × ((b.circuit_state ≡ circuit_open) ↔ (2 ≤ 3))
unfolding captcha_protect.Circuit.is_healthy_status
circuit_open_example =
    circuit_open_iff wiki_config turnstile_config outage (omega arith) (omega arith) (omega arith)

get_active_captcha_config-events_example :
    get_active_captcha_config wiki_config turnstile_config
      (apply_events wiki_config turnstile_config outage new_breaker)
    ≡ poj_config
unfolding captcha_protect.Circuit.has_fallback_provider text_eq
    captcha_protect.Circuit.is_healthy_status
get_active_captcha_config-events_example =
    get_active_captcha_config-events wiki_config turnstile_config outage refl (omega arith)
      (omega arith)
