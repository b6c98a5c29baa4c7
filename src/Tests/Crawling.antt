-- ===== src/Tests/Crawling.antt =====
-- Tests of the published ranges, with the theorems at concrete data.
use captcha_protect.Base.{
  ℕ, ◌≡◌, ◌≢◌, ◌↔◌, inl, inr, refl, List, [], ◌∷◌, Option, none, some, Bool, true, false, Text,
  codes, text_eq, if◌then◌else◌, arith, All, Any,
}
use captcha_protect.Net.{parse_cidr, v4, masked}
use captcha_protect.Crawlers.{
  Download, answer, no_answer, fetch_googlebot_ips, fetch_google_crawler_ips,
  refresh_google_crawler_ips, fetch_uptime_robot_ips, fetch_common_crawl_ips, expand, update,
}
use captcha_protect.Crawlers.Google.{refresh_google_crawler_ips_failed}
use captcha_protect.Crawlers.CommonCrawl.{IsVerified, expand_iff}

-- A body of one letter and what it decodes to.
abbrev pub decode : Text → Option (List (Text × Text))
decode body =
    if text_eq body (codes "g")
    then some ((codes "192.0.2.0/30", []) ∷ ([], codes "2001:db8::/32") ∷ [])
    else none

abbrev pub client : Text → Download
client url = if text_eq url (codes "good") then answer 200 (some (codes "g")) else no_answer

abbrev both : List Text
both = codes "good" ∷ codes "down" ∷ []

fetch_runs :
    (fetch_google_crawler_ips decode client (codes "good" ∷ [])
      ≡ some (codes "192.0.2.0/30" ∷ codes "2001:db8::/32" ∷ []))
    × (fetch_google_crawler_ips decode client both ≡ none)
    × (fetch_common_crawl_ips decode
          (λ a. false)
          (λ ip. text_eq ip (codes "192.0.2.2"))
          (client (codes "good"))
        ≡ some (codes "192.0.2.2/32" ∷ codes "2001:db8::/32" ∷ []))
unfolding fetch_google_crawler_ips captcha_protect.Crawlers.fetch_all fetch_googlebot_ips
    captcha_protect.Crawlers.body_of text_eq captcha_protect.Cidr.reduce_cidrs
    captcha_protect.Crawlers.published captcha_protect.Net.parse_prefix
    captcha_protect.Base.last_index_byte captcha_protect.Net.parse_addr captcha_protect.Base.any
    captcha_protect.Base.parse_decimal captcha_protect.Cidr.less masked captcha_protect.Cidr.covers
    captcha_protect.Net.prefix_contains captcha_protect.Net.prefix_string
    captcha_protect.Net.addr_less captcha_protect.Net.addr_string expand
    captcha_protect.Crawlers.expand_all captcha_protect.Crawlers.expand_loop
    captcha_protect.Crawlers.limited_body fetch_common_crawl_ips captcha_protect.Net.decimal_string
fetch_runs = (refl, refl, refl)

one_down : Any (λ url. fetch_googlebot_ips decode client url ≡ none) both
unfolding fetch_googlebot_ips captcha_protect.Crawlers.body_of text_eq
one_down = inr (inl refl)

refresh_google_crawler_ips_failed_example :
    refresh_google_crawler_ips decode client both (update (codes "192.0.2.0/24" ∷ []))
    ≡ update (codes "192.0.2.0/24" ∷ [])
refresh_google_crawler_ips_failed_example =
    refresh_google_crawler_ips_failed decode client both (update (codes "192.0.2.0/24" ∷ []))
      one_down

uptime_run :
    fetch_uptime_robot_ips decode (client (codes "good"))
    ≡ some (codes "192.0.2.0/30" ∷ codes "2001:db8::/32" ∷ [])
unfolding fetch_uptime_robot_ips captcha_protect.Crawlers.limited_body
    captcha_protect.Crawlers.body_of text_eq captcha_protect.Crawlers.validated
    captcha_protect.Crawlers.published parse_cidr captcha_protect.Base.index_byte
    captcha_protect.Base.any captcha_protect.Base.parse_decimal
uptime_run = refl

abbrev fetched : List Text
fetched = codes "192.0.2.0/30" ∷ codes "2001:db8::/32" ∷ []

abbrev confirmed : Text → Bool
confirmed ip = text_eq ip (codes "192.0.2.2")

expand_example :
    let prefix = masked (record { addr = v4 0xc000_0201; bits = 30 }) in
    (cidrs : List Text) × (expand (λ a. false) confirmed prefix ≡ some cidrs)
    × ((cidr : Text) → Any (λ c. c ≡ cidr) cidrs ↔ IsVerified confirmed prefix cidr)
expand_example = expand_iff confirmed 0xc000_0201 30
