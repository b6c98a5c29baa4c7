-- ===== src/Bots.antt =====
-- Forward-confirmed reverse DNS: internal/helper/ip.go. The two lookups are parameters; `none` is
-- a lookup that fails, and a resolved address is its sixteen bytes.
pub mod Confirmed
use captcha_protect.Base.{
  ℕ, Bool, true, false, not, ◌&&◌, ◌||◌, List, [], ◌∷◌, ◌++◌, any, Option, none, some,
}
use captcha_protect.Base.{Text, codes, text_eq, ends_with, to_lower, trim, trim_space, trim_suffix}
use captcha_protect.Base.{if◌then◌else◌, ◌==◌}
use captcha_protect.Net.{parse_ip}

-- A configured domain in the form that is compared.
unfoldable pub normal_domain : Text → Text
normal_domain bot = to_lower (trim (λ c. c == b'.') (trim_space bot))

-- A host name from the reverse lookup in that form.
unfoldable pub normal_hostname : Text → Text
normal_hostname hostname = to_lower (trim_suffix hostname (codes "."))

unfoldable pub matches_good_bot_domain : Text → List Text → Bool
unfolding normal_domain
matches_good_bot_domain hostname good_bots =
    any
      (λ bot.
        let domain = normal_domain bot in
        not (text_eq domain []) && (text_eq hostname domain || ends_with hostname (b'.' ∷ domain)))
      good_bots

module _ (lookup_ip : Text → Option (List ℕ)) where
  -- The test of one host name: it lies in a good domain, and it resolves to the address.
  unfoldable pub confirms : ℕ → List Text → Text → Bool
  unfolding normal_hostname matches_good_bot_domain
  confirms ip good_bots hostname =
      let name = normal_hostname hostname in
      if not (matches_good_bot_domain name good_bots)
      then false
      else elim (lookup_ip name) [ none ↦ false | some resolved ↦ any (λ a. a == ip) resolved ]

module _ (lookup_addr : Text → Option (List Text)) (lookup_ip : Text → Option (List ℕ)) where
  -- `IsIpGoodBotContext`
  unfoldable pub is_ip_good_bot : Text → List Text → Bool
  unfolding confirms
  is_ip_good_bot client_ip [] = false
  is_ip_good_bot client_ip (bot ∷ good_bots) = elim (parse_ip client_ip) [
    | none ↦ false
    | some ip ↦ elim (lookup_addr client_ip) [
      | none ↦ false
      | some hostnames ↦ any (confirms lookup_ip ip (bot ∷ good_bots)) hostnames
    ]
  ]
