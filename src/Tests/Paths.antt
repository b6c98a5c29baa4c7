-- ===== src/Tests/Paths.antt =====
-- Tests of the routes, the client's address and the destination, with the theorems at concrete
-- data.
use captcha_protect.Base.{
  ℕ, ◌≡◌, ◌≢◌, ◌↔◌, ◌⊎◌, refl, List, [], ◌∷◌, ◌++◌, Option, none, some, Bool, true, false, Text,
  codes,
}
use captcha_protect.Base.{
  text_eq, text_eq_iff, no_text_eq, to_lower, starts_with, ends_with, contains_text, All, Any,
  IsPrefix, IsSuffix, IsInfix, if◌then◌else◌, arith, length, any,
}
use captcha_protect.Base.{trim_space, split, u64_mod}
use captcha_protect.Net.{IpNet, parse_cidr, parse_ip}
use captcha_protect.Request.{Request}
use captcha_protect.Routes.{
  file_ext, clean_path, is_extension_protected, route_is_protected_prefix,
  route_is_protected_suffix, route_is_protected_regex, is_good_user_agent, Regexp,
}
use captcha_protect.ClientIp.{is_ip_excluded, strip_port, get_client_ip}
use captcha_protect.ClientIp.Forwarded.{
  text_at, candidates, get_client_ip_forwarded, get_client_ip-spoofed,
}
use captcha_protect.Destination.{Url, normalize_destination}
use captcha_protect.Destination.Local.{IsLocal, normalize_destination-IsLocal}
use captcha_protect.Tests.{wiki_config, request_for}

prefix_runs :
    (route_is_protected_prefix wiki_config (codes "/wiki/Main_Page") ≡ true)
    × (route_is_protected_prefix wiki_config (codes "/wiki/static/x") ≡ false)
    × (route_is_protected_prefix wiki_config (codes "/wiki/a.PNG") ≡ false)
    × (route_is_protected_prefix wiki_config (codes "/wiki/a.HTML") ≡ true)
unfolding route_is_protected_prefix is_extension_protected file_ext starts_with any text_eq
    captcha_protect.Base.trim_prefix captcha_protect.Routes.equal_fold to_lower
prefix_runs = (refl, refl, refl, refl)

suffix_runs :
    (route_is_protected_suffix wiki_config (codes "/w/item.html") ≡ true)
    × (route_is_protected_suffix wiki_config (codes "/item/x") ≡ false)
unfolding route_is_protected_suffix ends_with clean_path file_ext captcha_protect.Base.trim_suffix
    any starts_with is_extension_protected captcha_protect.Base.trim_prefix
    captcha_protect.Routes.equal_fold to_lower
suffix_runs = (refl, refl)

abbrev nodes : List Regexp
nodes = (λ path. starts_with path (codes "/node/")) ∷ []

html_bytes : All (λ c. (c ≢ b'.') × (c ≢ b'/')) (codes "HTML")
html_bytes = ground arith

abbrev exempt : List IpNet
exempt = elim (parse_cidr (codes "10.0.0.0/8")) [ none ↦ [] | some block ↦ block ∷ [] ]

abbrev forwarded : Request
forwarded = request_for (codes "/wiki") (codes "203.0.113.7, 198.51.100.2 ,10.1.2.3")

client_runs :
    (get_client_ip wiki_config exempt forwarded ≡ codes "198.51.100.2")
    × (get_client_ip (record wiki_config { ip_depth = 1 }) exempt forwarded ≡ codes "203.0.113.7")
    × (get_client_ip (record wiki_config { ip_depth = 2 }) exempt forwarded ≡ codes "10.0.0.1")
    × (get_client_ip wiki_config exempt (request_for [] []) ≡ codes "10.0.0.1")
unfolding get_client_ip strip_port contains_text text_eq split is_ip_excluded any parse_cidr
    captcha_protect.Base.index_byte captcha_protect.Base.parse_decimal
    captcha_protect.Net.ip_net_contains parse_ip trim_space captcha_protect.Net.split_host_port
client_runs = (refl, refl, refl, refl)

get_client_ip_forwarded_example :
    let found =
      text_at
        (candidates (λ a. is_ip_excluded a exempt) (forwarded.header (codes "X-Forwarded-For")))
        0 in
    get_client_ip wiki_config exempt forwarded
    ≡ strip_port (if text_eq found [] then forwarded.remote_addr else found)
unfolding text_eq
get_client_ip_forwarded_example =
    get_client_ip_forwarded wiki_config exempt forwarded (omega arith) (λ e. ground arith)
      (λ e. ground arith)

abbrev spoofed : Request
spoofed = request_for (codes "/wiki") (codes "8.8.8.8,203.0.113.7, 198.51.100.2 ,10.1.2.3")

two_candidates :
    length (candidates (λ a. is_ip_excluded a exempt) (forwarded.header (codes "X-Forwarded-For")))
    ≡ 2
unfolding captcha_protect.Base.filter_by split text_eq is_ip_excluded any parse_cidr
    captcha_protect.Base.index_byte captcha_protect.Base.parse_decimal
    captcha_protect.Net.ip_net_contains parse_ip trim_space
two_candidates = refl

get_client_ip-spoofed_example :
    get_client_ip wiki_config exempt spoofed ≡ get_client_ip wiki_config exempt forwarded
unfolding text_eq
get_client_ip-spoofed_example =
    get_client_ip-spoofed wiki_config exempt forwarded spoofed (codes "8.8.8.8") (omega arith)
      (λ e. ground arith) (rw two_candidates (omega arith)) refl refl

-- URLs without a query: another site, or a path.
abbrev parse_url : Text → Option Url
parse_url t = some (record {
  scheme = if starts_with t (codes "https:") then codes "https" else [];
  url_host = if starts_with t (codes "//") then codes "evil" else [];
  path = t;
  raw_query = [];
  fragment = [];
  request_uri = t;
})

abbrev unescape : Text → Option Text
unescape t = some (if text_eq t (codes "%2F%2Fevil") then codes "//evil" else t)

destination_runs :
    (normalize_destination parse_url unescape (codes "//evil") ≡ codes "/")
    × (normalize_destination parse_url unescape (codes "https://evil/") ≡ codes "/")
    × (normalize_destination parse_url unescape (codes "/wiki/a") ≡ codes "/wiki/a")
unfolding normalize_destination text_eq starts_with
destination_runs = (refl, refl, refl)

normalize_destination_example :
    IsLocal parse_url (normalize_destination parse_url unescape (codes "%2F%2Fevil"))
normalize_destination_example =
    normalize_destination-IsLocal parse_url unescape (codes "%2F%2Fevil")
