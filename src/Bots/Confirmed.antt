-- ===== src/Bots/Confirmed.antt =====
-- What it takes to be a good bot.
use captcha_protect.Base.{
  ℕ, ◌≡◌, ◌≢◌, ◌↔◌, ◌⊎◌, refl, inl, inr, true, not, ◌&&◌, ◌||◌, List, [], ◌∷◌,
}
use captcha_protect.Base.{
  Option, some, Text, text_eq, text_eq_iff, ends_with, ends_with_iff, IsSuffix, Any, any_iff_by,
}
use captcha_protect.Base.{arith, ==_iff, Bool-cases, Option-cases}
use captcha_protect.Net.{parse_ip}
use captcha_protect.Bots.{
  normal_domain, normal_hostname, matches_good_bot_domain, confirms, is_ip_good_bot,
}

-- A host name is the domain itself or ends in a dot and the domain.
abbrev pub InDomain : Text → Text → Type 0
InDomain hostname domain = (domain ≢ []) × ((hostname ≡ domain) ⊎ IsSuffix (b'.' ∷ domain) hostname)

InDomain-iff :
    (hostname domain : Text)
    → ((not (text_eq domain []) && (text_eq hostname domain || ends_with hostname (b'.' ∷ domain)))
        ≡ true)
      ↔ InDomain hostname domain
InDomain-iff hostname domain =
    let empty = text_eq_iff domain [] in
    let same = text_eq_iff hostname domain in
    let ends = ends_with_iff hostname (b'.' ∷ domain) in
    (
      λ h. (
        λ e. ground arith,
        elim (Bool-cases (text_eq hostname domain)) [
          | inl e ↦ inl (same.0 e)
          | inr e ↦ inr (ends.0 (ground arith))
        ],
      ),
      λ (h, k). elim k [
        | inl e ↦ let s = same.1 e in ground arith
        | inr e ↦ let s = ends.1 e in ground arith
      ],
    )

-- A host name matches exactly when it lies in one of the domains, on a label boundary.
pub matches_good_bot_domain_iff :
    (hostname : Text) (good_bots : List Text)
    → (matches_good_bot_domain hostname good_bots ≡ true)
      ↔ Any (λ bot. InDomain hostname (normal_domain bot)) good_bots
unfolding matches_good_bot_domain
matches_good_bot_domain_iff hostname good_bots =
    any_iff_by _ _ good_bots (λ bot. InDomain-iff hostname (normal_domain bot))

module _ (lookup_ip : Text → Option (List ℕ)) where
  -- A host name lies in a good domain, and resolves to the address.
  abbrev pub Confirms : ℕ → List Text → Text → Type 0
  Confirms ip good_bots hostname =
      Any (λ bot. InDomain (normal_hostname hostname) (normal_domain bot)) good_bots
      × (resolved : List ℕ) × (lookup_ip (normal_hostname hostname) ≡ some resolved)
      × Any (λ a. a ≡ ip) resolved

  Confirms-of :
      (ip : ℕ) (good_bots : List Text) (hostname : Text)
      → confirms lookup_ip ip good_bots hostname ≡ true
      → Confirms ip good_bots hostname
  unfolding confirms
  Confirms-of ip good_bots hostname h =
      let name = normal_hostname hostname in
      elim (Bool-cases (matches_good_bot_domain name good_bots)) [
        | inr e ↦ cc (rw e at h)
        | inl e ↦ elim (Option-cases (lookup_ip name)) [
          | inl lost ↦ cc (rw (e, lost) at h)
          | inr (resolved, found) ↦ (
            (matches_good_bot_domain_iff name good_bots).0 e,
            resolved,
            found,
            (any_iff_by _ _ resolved (λ a. ==_iff a ip)).0 (rw (e, found) at h),
          )
        ]
      ]

  confirms_of :
      (ip : ℕ) (good_bots : List Text) (hostname : Text)
      → Confirms ip good_bots hostname
      → confirms lookup_ip ip good_bots hostname ≡ true
  unfolding confirms
  confirms_of ip good_bots hostname (domain, resolved, found, hit) =
      rw ((matches_good_bot_domain_iff (normal_hostname hostname) good_bots).1 domain, found)
        ((any_iff_by _ _ resolved (λ a. ==_iff a ip)).1 hit)

  confirms_iff :
      (ip : ℕ) (good_bots : List Text) (hostname : Text)
      → (confirms lookup_ip ip good_bots hostname ≡ true) ↔ Confirms ip good_bots hostname
  confirms_iff ip good_bots hostname =
      (Confirms-of ip good_bots hostname, confirms_of ip good_bots hostname)

module _ (lookup_addr : Text → Option (List Text)) (lookup_ip : Text → Option (List ℕ)) where
  -- Some name of the reverse lookup of an address is confirmed.
  abbrev pub GoodBot : Text → List Text → Type 0
  GoodBot client_ip good_bots =
      (good_bots ≢ [])
      × (ip : ℕ) × (hostnames : List Text) × (parse_ip client_ip ≡ some ip)
      × (lookup_addr client_ip ≡ some hostnames)
      × Any (Confirms lookup_ip ip good_bots) hostnames

  GoodBot-of :
      (client_ip b : Text) (bots : List Text)
      → is_ip_good_bot lookup_addr lookup_ip client_ip (b ∷ bots) ≡ true
      → GoodBot client_ip (b ∷ bots)
  unfolding is_ip_good_bot
  GoodBot-of client_ip b bots h = elim (Option-cases (parse_ip client_ip)) [
    | inl bad ↦ cc (rw (bad, is_ip_good_bot) at h)
    | inr (ip, parsed) ↦ elim (Option-cases (lookup_addr client_ip)) [
      | inl lost ↦ cc (rw (parsed, lost, is_ip_good_bot) at h)
      | inr (hostnames, found) ↦ (
        (λ e. cc),
        ip,
        hostnames,
        parsed,
        found,
        (any_iff_by _ _ hostnames (confirms_iff lookup_ip ip (b ∷ bots))).0
            (rw (parsed, found, is_ip_good_bot) at h),
      )
    ]
  ]

  -- An address is a good bot's exactly when bots are configured, it parses, and some name of the
  -- reverse lookup lies in one of their domains and resolves to that address again.
  pub is_ip_good_bot_iff :
      (client_ip : Text) (good_bots : List Text)
      → (is_ip_good_bot lookup_addr lookup_ip client_ip good_bots ≡ true)
        ↔ GoodBot client_ip good_bots
  unfolding is_ip_good_bot
  is_ip_good_bot_iff client_ip [] = (λ h. cc, λ h. absurd (h.0 refl))
  is_ip_good_bot_iff client_ip (b ∷ bots) = (
    GoodBot-of client_ip b bots,
    λ (_, ip, hostnames, parsed, found, hit).
        rw (parsed, found, is_ip_good_bot)
          ((any_iff_by _ _ hostnames (confirms_iff lookup_ip ip (b ∷ bots))).1 hit),
  )
