-- ===== src/Startup/Exempt.antt =====
-- Visitors from exempt networks are never challenged.
use captcha_protect.Base.{
  ℕ, ◌≡◌, refl, inl, inr, Bool, true, false, List, [], ◌∷◌, ◌++◌, any, any_cons, Any, Option, some,
  Option-cases, Text, arith, ok,
}
use captcha_protect.Config.{Config}
use captcha_protect.Request.{Request}
use captcha_protect.Cache.{Cache}
use captcha_protect.Destination.{Url}
use captcha_protect.Net.{IpNet, parse_ip, parse_cidr, ip_net_contains}
use captcha_protect.Routes.{Regexp}
use captcha_protect.ClientIp.{is_ip_excluded}
use captcha_protect.Middleware.{Setup, State}
use captcha_protect.Access.{should_apply}
use captcha_protect.Startup.{TemplateFile, private_networks, parse_networks, new_setup}
use captcha_protect.Startup.Wellformed.{bind_ok, setup_config}

-- The address lies in the network that a text denotes.
abbrev pub InNetwork : ℕ → Text → Type 0
InNetwork ip cidr =
    (network : IpNet) × (parse_cidr cidr ≡ some network)
    × (ip_net_contains network (some ip) ≡ true)

parse_networks_cons :
    (cidr : Text) (cidrs : List Text) {networks : List IpNet}
    → parse_networks (cidr ∷ cidrs) ≡ ok networks
    → (network : IpNet) × (rest : List IpNet) × (parse_cidr cidr ≡ some network)
      × (parse_networks cidrs ≡ ok rest)
      × (networks ≡ network ∷ rest)
unfolding parse_networks
parse_networks_cons cidr cidrs h = elim (Option-cases (parse_cidr cidr)) [
  | inl e ↦ absurd (ground arith)
  | inr (network, e) ↦
      let (rest, parsed, same) =
        bind_ok (parse_networks cidrs) (λ rest. ok (network ∷ rest))
          (rw (e, parse_networks) at h) in
      (network, rest, e, parsed, ground arith)
]

parse_networks-any :
    (ip : ℕ) (cidrs : List Text) {networks : List IpNet}
    → parse_networks cidrs ≡ ok networks
    → Any (InNetwork ip) cidrs
    → any (λ network. ip_net_contains network (some ip)) networks ≡ true
unfolding any
parse_networks-any ip [] h inside = absurd inside
parse_networks-any ip (cidr ∷ cidrs) h (inl (n, parsed, inside)) =
    let (network, rest, parsed', _, same) = parse_networks_cons cidr cidrs h in
    let found : n ≡ network = ground arith in rw (same, ← found, inside) refl
parse_networks-any ip (cidr ∷ cidrs) h (inr inside) =
    let (network, rest, _, parsed, same) = parse_networks_cons cidr cidrs h in
    rw (same, any_cons, parse_networks-any ip cidrs parsed inside) (ground arith)

excluded_of :
    (client_ip : Text) (ip : ℕ) (networks : List IpNet)
    → parse_ip client_ip ≡ some ip
    → any (λ network. ip_net_contains network (some ip)) networks ≡ true
    → is_ip_excluded client_ip networks ≡ true
unfolding is_ip_excluded
excluded_of client_ip ip networks parsed inside = rw parsed inside

-- Once the middleware has started, no request is challenged from an address of one of the private
-- networks or of a network that is configured as exempt.
pub should_apply-new_setup :
    (parse_url : Text → Option Url) (path_escape : Text → Text) (compile : Text → Option Regexp)
    (parses : Text → Bool) (file : TemplateFile) (name : Text) (config : Config) (setup : Setup)
    (C : Cache) (lookup : Text → List Text → Bool) (now : ℕ) (st : State C) (req : Request)
    (client_ip : Text) (ip : ℕ)
    → new_setup parse_url path_escape compile parses file name config ≡ ok setup
    → parse_ip client_ip ≡ some ip
    → Any (InNetwork ip) (private_networks ++ config.exempt_ips)
    → should_apply C lookup setup now st req client_ip ≡ (false, st)
unfolding should_apply
should_apply-new_setup parse_url path_escape compile parses file name config setup C lookup now st
      req client_ip ip started parsed inside =
    let (_, _, _, networks, _) =
      setup_config parse_url path_escape compile parses file name config setup started in
    let excluded =
      excluded_of client_ip ip setup.exempt_ips parsed (parse_networks-any ip _ networks inside) in
    ground arith
