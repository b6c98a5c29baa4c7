-- ===== src/Startup/Providers.antt =====
-- The networks and the providers that `NewCaptchaProtect` accepts.
use captcha_protect.Base.{
  ◌≡◌, ◌≢◌, ◌↔◌, ◌⊎◌, refl, inl, inr, true, false, ◌==◌, List, [], ◌∷◌, ◌++◌, Option, none, some,
  Option-cases, Text, codes, text_eq, text_eq_iff, text_ne, index_byte, any, parse_decimal, arith,
  Bool-cases, if◌then◌else◌, All,
}
use captcha_protect.Config.{Config, challenge_on_page}
use captcha_protect.Circuit.{get_captcha_config}
use captcha_protect.Destination.{Url}
use captcha_protect.Net.{IpNet, parse_cidr}
use captcha_protect.Startup.{
  bad_cidr, default_status, private_networks, parse_networks, is_http_url, is_root_relative_path,
  base_url, cap_verify_base, new_cap_captcha_config, choose_provider,
}
use captcha_protect.Startup.Guards.{IsOk, found_iff}

-- Every network is one.
abbrev pub AreNetworks : List Text → Type 0
AreNetworks = All (λ cidr. (network : IpNet) × (parse_cidr cidr ≡ some network))

parse_networks_iff : (cidrs : List Text) → IsOk (parse_networks cidrs) ↔ AreNetworks cidrs
unfolding parse_networks
parse_networks_iff [] = (λ h. tt, λ h. ([], refl))
parse_networks_iff (cidr ∷ cidrs) =
    found_iff (parse_cidr cidr) bad_cidr (parse_networks cidrs) (parse_networks_iff cidrs)

-- The networks that are always exempt are networks.
private_iff : (cidrs : List Text) → AreNetworks (private_networks ++ cidrs) ↔ AreNetworks cidrs
unfolding parse_cidr index_byte any parse_decimal
private_iff cidrs = (
  λ (_, (_, (_, (_, (_, h))))). h,
  λ h. ((_, refl), ((_, refl), ((_, refl), ((_, refl), ((_, refl), h))))),
)

-- The providers that have a script of their own.
abbrev pub IsNamed : Text → Type 0
IsNamed provider =
    (provider ≡ codes "hcaptcha")
    ⊎ (provider ≡ codes "recaptcha")
    ⊎ (provider ≡ codes "turnstile")
    ⊎ (provider ≡ codes "poj")

pub exempt_iff :
    (cidrs : List Text) → IsOk (parse_networks (private_networks ++ cidrs)) ↔ AreNetworks cidrs
exempt_iff cidrs =
    let (to, from) = parse_networks_iff (private_networks ++ cidrs) in
    let (to', from') = private_iff cidrs in (λ h. to' (to h), λ h. from (from' h))

module _ (parse_url : Text → Option Url) where
  -- The URLs that are asked of a configuration with Cap: one for the browser, with or without a
  -- host, and one with a host for the middleware, which is the same where no other is given.
  abbrev pub IsCapUsable : Text → Text → Type 0
  IsCapUsable cap_url cap_verify_url =
      (base_url cap_url ≢ [])
      × ((is_http_url parse_url (base_url cap_url) ≡ true)
          ⊎ (is_root_relative_path parse_url (base_url cap_url) ≡ true))
      × (((base_url cap_verify_url ≡ []) × (is_http_url parse_url (base_url cap_url) ≡ true))
          ⊎ ((base_url cap_verify_url ≢ [])
              × (is_http_url parse_url (base_url cap_verify_url) ≡ true)))

  -- What is asked of the provider.
  abbrev pub IsProvided : Text → Text → Text → Type 0
  IsProvided provider cap_url cap_verify_url =
      IsNamed provider ⊎ ((provider ≡ codes "cap") × IsCapUsable cap_url cap_verify_url)

named-js :
    (provider : Text) → IsNamed provider → text_eq (get_captcha_config provider).js [] ≡ false
unfolding get_captcha_config text_eq
named-js provider (inl e) = rw e refl
named-js provider (inr (inl e)) = rw e refl
named-js provider (inr (inr (inl e))) = rw e refl
named-js provider (inr (inr (inr e))) = rw e refl

js-IsNamed :
    (provider : Text) → text_eq (get_captcha_config provider).js [] ≡ false → IsNamed provider
unfolding get_captcha_config
js-IsNamed provider h = elim (Bool-cases (text_eq provider (codes "hcaptcha"))) [
  | inl e ↦ inl ((text_eq_iff provider (codes "hcaptcha")).0 e)
  | inr a ↦ elim (Bool-cases (text_eq provider (codes "recaptcha"))) [
    | inl e ↦ inr (inl ((text_eq_iff provider (codes "recaptcha")).0 e))
    | inr b ↦ elim (Bool-cases (text_eq provider (codes "turnstile"))) [
      | inl e ↦ inr (inr (inl ((text_eq_iff provider (codes "turnstile")).0 e)))
      | inr c ↦ elim (Bool-cases (text_eq provider (codes "poj"))) [
        | inl e ↦ inr (inr (inr ((text_eq_iff provider (codes "poj")).0 e)))
        | inr d ↦ (unfold text_eq in let absent = rw (a, b, c, d) at h in absurd (ground arith))
      ]
    ]
  ]
]

unnamed_cap : ¬ IsNamed (codes "cap")
unnamed_cap (inl e) = ground arith
unnamed_cap (inr (inl e)) = ground arith
unnamed_cap (inr (inr (inl e))) = ground arith
unnamed_cap (inr (inr (inr e))) = ground arith

module _ (parse_url : Text → Option Url) (path_escape : Text → Text) where
  new_cap_captcha_config_iff :
      (c : Config)
      → (new_cap_captcha_config parse_url path_escape c ≢ none)
        ↔ IsCapUsable parse_url c.cap_url c.cap_verify_url
  unfolding new_cap_captcha_config cap_verify_base
  new_cap_captcha_config_iff c =
      let none_given = text_eq_iff (base_url c.cap_url) [] in
      let none_to_verify = text_eq_iff (base_url c.cap_verify_url) [] in ground arith

  choose_provider_iff :
      (c : Config)
      → IsOk (choose_provider parse_url path_escape c)
        ↔ IsProvided parse_url c.captcha_provider c.cap_url c.cap_verify_url
  unfolding choose_provider
  choose_provider_iff c =
      let (to, from) = new_cap_captcha_config_iff c in
      elim (Bool-cases (text_eq c.captcha_provider (codes "cap"))) [
        | inl e ↦
            let cap = (text_eq_iff c.captcha_provider (codes "cap")).0 e in
            elim (Option-cases (new_cap_captcha_config parse_url path_escape c)) [
              | inl bad ↦
                  rw (e, bad)
                    (
                      λ (r, k). absurd (ground arith),
                      λ h. absurd (elim h [
                        | inl named ↦ unnamed_cap (rw cap at named)
                        | inr (_, usable) ↦ from usable bad
                      ]),
                    )
              | inr ((captcha, c'), good) ↦
                  rw (e, good) (λ _. inr (cap, to (λ bad. ground arith)), λ _. (_, refl))
            ]
        | inr e ↦ elim (Bool-cases (text_eq (get_captcha_config c.captcha_provider).js [])) [
          | inl absent ↦
              rw (e, absent)
                (
                  λ (r, k). absurd (ground arith),
                  λ h. absurd (elim h [
                    | inl named ↦ (let there = named-js c.captcha_provider named in ground arith)
                    | inr (cap, _) ↦ text_ne c.captcha_provider (codes "cap") e cap
                  ]),
                )
          | inr there ↦
              rw (e, there) (λ _. inl (js-IsNamed c.captcha_provider there), λ _. (_, refl))
        ]
      ]

  -- The default of the status changes nothing of what the provider needs.
  pub default_status_provider_iff :
      (c : Config)
      → IsOk (choose_provider parse_url path_escape (default_status c))
        ↔ IsProvided parse_url c.captcha_provider c.cap_url c.cap_verify_url
  unfolding default_status
  default_status_provider_iff c = elim (Bool-cases (c.challenge_status_code == 0)) [
    | inl e ↦ rw e (
        choose_provider_iff
          (record c { challenge_status_code = if challenge_on_page c then 429 else 200 }))
    | inr e ↦ rw e (choose_provider_iff c)
  ]
