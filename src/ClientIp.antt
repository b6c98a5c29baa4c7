-- ===== src/ClientIp.antt =====
-- The client's address: `getClientIP` of main.go and `IsIpExcluded` of internal/helper/ip.go.
pub mod Forwarded
use captcha_protect.Base.{
  ℕ, Bool, true, false, not, ◌&&◌, List, [], ◌∷◌, reverse, any, Option, none, some,
}
use captcha_protect.Base.{
  Text, codes, text_eq, trim_space, split, contains_text, if◌then◌else◌, ◌==◌,
}
use captcha_protect.Base.{sub64}
use captcha_protect.Net.{IpNet, ip_net_contains, parse_ip, split_host_port}
use captcha_protect.Config.{Config}
use captcha_protect.Request.{Request}

unfoldable pub is_ip_excluded : Text → List IpNet → Bool
is_ip_excluded client_ip exempt_ips =
    let ip = parse_ip client_ip in any (λ block. ip_net_contains block ip) exempt_ips

-- The loop over the components of the header, from the last one: exempt addresses are skipped,
-- and `depth` others. The components come reversed. An empty text stands for "none found".
unfoldable pub forwarded_loop : (Text → Bool) → List Text → ℕ → Text
forwarded_loop excluded [] depth = []
forwarded_loop excluded (c ∷ components) depth =
    let ip = trim_space c in
    let rest = forwarded_loop excluded components (if excluded ip then depth else sub64 depth 1) in
    if excluded ip then rest else if depth == 0 then ip else rest

-- The last step: a port is dropped.
unfoldable pub strip_port : Text → Text
strip_port ip =
    if contains_text ip (codes ":")
    then elim (split_host_port ip) [ none ↦ ip | some host ↦ host ]
    else ip

unfoldable pub get_client_ip : Config → List IpNet → Request → Text
unfolding forwarded_loop
get_client_ip c exempt_ips req =
    let ip = req.header c.ip_forwarded_header in
    strip_port (
      if not (text_eq c.ip_forwarded_header []) && not (text_eq ip [])
      then (let found =
            forwarded_loop (λ a. is_ip_excluded a exempt_ips) (reverse (split b',' ip))
              c.ip_depth in
          if text_eq found [] then req.remote_addr else found)
      else req.remote_addr)
