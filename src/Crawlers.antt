-- ===== src/Crawlers.antt =====
-- The published address ranges: `GooglebotIPs` and the downloads of internal/helper/google.go,
-- commoncrawl.go and uptimerobot.go. `get` is the client with a URL, `unmarshal` the decoding of
-- a body into the pairs of an IPv4 and an IPv6 prefix; `none` is an error, which leaves the ranges
-- as they are.
pub mod Google
pub mod UptimeRobot
pub mod CommonCrawl
pub mod Refreshing
use captcha_protect.Base.{
  ℕ, zero, suc, ◌+◌, ◌-◌, ◌^◌, ◌<◌, Bool, true, false, not, List, [], ◌∷◌, ◌++◌, Option, none, some,
  Text, codes, text_eq, length, if◌then◌else◌, ◌==◌, ltb,
}
use captcha_protect.Net.{
  IpNet, parse_cidr, Addr, v4, v6, Prefix, masked, parse_prefix, prefix_contains, prefix_string,
  addr_string, is4,
}
use captcha_protect.Cidr.{reduce_cidrs}
use captcha_protect.Bots.{is_ip_good_bot}

-- What comes of a GET request: none could be made, no answer came, or an answer with a status and
-- a body, which may not be readable.
pub data Download : Type 0 where
  bad_request no_answer : Download
  answer : ℕ → Option Text → Download

-- No networks, until the first refresh.
abbrev pub new_googlebot_ips : List IpNet
new_googlebot_ips = []

abbrev pub new_common_crawl_ips : List IpNet
new_common_crawl_ips = new_googlebot_ips

abbrev pub new_uptime_robot_ips : List IpNet
new_uptime_robot_ips = new_googlebot_ips

-- `Update`: the networks that parse.
unfoldable pub update : List Text → List IpNet
update [] = []
update (s ∷ cidrs) =
    let rest = update cidrs in elim (parse_cidr s) [ none ↦ rest | some network ↦ network ∷ rest ]

-- A refresh: the ranges after it.
unfoldable pub refreshed : Option (List Text) → List IpNet → List IpNet
refreshed none ranges = ranges
refreshed (some cidrs) ranges = update cidrs

-- The prefixes of a decoded body that are not empty, in order.
unfoldable pub published : List (Text × Text) → List Text
published [] = []
published ((ipv4, ipv6) ∷ prefixes) =
    (if not (text_eq ipv4 []) then ipv4 ∷ [] else [])
    ++ ((if not (text_eq ipv6 []) then ipv6 ∷ [] else []) ++ published prefixes)

-- The loop over the prefixes: each must parse.
unfoldable pub validated : List Text → Option (List Text)
validated [] = some []
validated (cidr ∷ cidrs) = elim (parse_cidr cidr) [
  | none ↦ none
  | some network ↦ elim (validated cidrs) [ none ↦ none | some rest ↦ some (cidr ∷ rest) ]
]

-- `canceled` is `ctx.Err()` when an address is looked at; `verified` is the reverse lookup for
-- the domain of Common Crawl.
module _ (canceled : Addr → Bool) (verified : Text → Bool) where
  -- The loop over the addresses of an IPv4 prefix, from `ip` on; `fuel` bounds the number of
  -- turns, and running out of it counts as an error.
  unfoldable pub expand_loop : ℕ → Prefix → ℕ → Option (List Text)
  expand_loop zero prefix ip = none
  expand_loop (suc fuel) prefix ip =
      let rest = expand_loop fuel prefix (suc ip) in
      if not (ltb ip (2 ^ 32))
      then some []
      else if not (prefix_contains prefix (v4 ip))
      then some []
      else if canceled (v4 ip)
      then none
      else if verified (addr_string (v4 ip))
      then elim rest [
        | none ↦ none
        | some cidrs ↦ some (prefix_string (record { addr = v4 ip; bits = 32 }) ∷ cidrs)
      ]
      else rest

  -- A masked prefix: an IPv6 one is kept, an IPv4 one expanded. It has `2 ^ (32 - bits)`
  -- addresses, and one more turn ends the loop.
  unfoldable pub expand : Prefix → Option (List Text)
  expand prefix = elim prefix.addr [
    | v6 a ↦ some (prefix_string prefix ∷ [])
    | v4 a ↦ expand_loop (2 ^ (32 - prefix.bits) + 1) prefix a
  ]

  -- The loop over the published prefixes.
  unfoldable pub expand_all : List Text → Option (List Text)
  expand_all [] = some []
  expand_all (cidr ∷ cidrs) =
      let rest = expand_all cidrs in
      elim (parse_prefix cidr) [
        | none ↦ none
        | some prefix ↦ elim (expand (masked prefix)) [
          | none ↦ none
          | some expanded ↦ elim rest [ none ↦ none | some others ↦ some (expanded ++ others) ]
        ]
      ]

module _ (unmarshal : Text → Option (List (Text × Text))) where
  -- The body of a good answer.
  unfoldable pub body_of : Download → Option Text
  body_of bad_request = none
  body_of no_answer = none
  body_of (answer status body) = if not (status == 200) then none else body

  unfoldable pub fetch_googlebot_ips : (Text → Download) → Text → Option (List Text)
  fetch_googlebot_ips get url = elim (body_of (get url)) [
    | none ↦ none
    | some body ↦ elim (unmarshal body) [ none ↦ none | some prefixes ↦ some (published prefixes) ]
  ]

  -- The loop over the URLs.
  unfoldable pub fetch_all : (Text → Download) → List Text → Option (List Text)
  fetch_all get [] = some []
  fetch_all get (url ∷ urls) = elim (fetch_googlebot_ips get url) [
    | none ↦ none
    | some cidrs ↦ elim (fetch_all get urls) [ none ↦ none | some rest ↦ some (cidrs ++ rest) ]
  ]

  unfoldable pub fetch_google_crawler_ips : (Text → Download) → List Text → Option (List Text)
  fetch_google_crawler_ips get [] = some []
  fetch_google_crawler_ips get (url ∷ urls) = elim (fetch_all get (url ∷ urls)) [
    | none ↦ none
    | some cidrs ↦ some (reduce_cidrs cidrs)
  ]

  unfoldable pub refresh_google_crawler_ips :
      (Text → Download) → List Text → List IpNet → List IpNet
  refresh_google_crawler_ips get urls ranges = refreshed (fetch_google_crawler_ips get urls) ranges

  abbrev pub max_response_size : ℕ
  max_response_size = 2 ^ 20

  -- A body that is read up to one byte more than the maximum, and decoded.
  unfoldable pub limited_body : Download → Option (List (Text × Text))
  limited_body download = elim (body_of download) [
    | none ↦ none
    | some body ↦ if ltb max_response_size (length body) then none else unmarshal body
  ]

  unfoldable pub fetch_uptime_robot_ips : Download → Option (List Text)
  fetch_uptime_robot_ips download = elim (limited_body download) [
    | none ↦ none
    | some prefixes ↦ elim (validated (published prefixes)) [
      | none ↦ none
      | some cidrs ↦ if length cidrs == 0 then none else some cidrs
    ]
  ]

  unfoldable pub refresh_uptime_robot_ips : Download → List IpNet → List IpNet
  refresh_uptime_robot_ips download ranges = elim (fetch_uptime_robot_ips download) [
    | none ↦ ranges
    | some cidrs ↦ update (reduce_cidrs cidrs)
  ]

  module _ (canceled : Addr → Bool) (verified : Text → Bool) where
    unfoldable pub fetch_common_crawl_ips : Download → Option (List Text)
    fetch_common_crawl_ips download = elim (limited_body download) [
      | none ↦ none
      | some prefixes ↦
          if length prefixes == 0
          then none
          else elim (expand_all canceled verified (published prefixes)) [
            | none ↦ none
            | some cidrs ↦ some (reduce_cidrs cidrs)
          ]
    ]

    unfoldable pub refresh_common_crawl_ips : Download → List IpNet → List IpNet
    refresh_common_crawl_ips download ranges = refreshed (fetch_common_crawl_ips download) ranges

-- The reverse lookup for Common Crawl.
abbrev pub is_common_crawl : (Text → Option (List Text)) → (Text → Option (List ℕ)) → Text → Bool
is_common_crawl lookup_addr lookup_ip ip =
    is_ip_good_bot lookup_addr lookup_ip ip (codes "commoncrawl.org" ∷ [])
