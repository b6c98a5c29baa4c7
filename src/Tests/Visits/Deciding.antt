-- ===== src/Tests/Visits/Deciding.antt =====
-- Tests of who is challenged, with the theorems at concrete data.
use captcha_protect.Base.{
  ◌≢◌, ◌⊎◌, codes, ℕ, ◌+◌, ◌*◌, ◌≡◌, ◌≢◌, ◌↔◌, refl, List, [], ◌∷◌, ◌++◌, Option, none, some, Bool,
  true, false, Text, codes, text_eq, if◌then◌else◌, arith, any, u64_mod, add64,
}
use captcha_protect.Config.{challenge_on_page}
use captcha_protect.Cache.{Cache}
use captcha_protect.Cache.Memory.{memory_cache}
use captcha_protect.ClientIp.{get_client_ip, is_ip_excluded}
use captcha_protect.Middleware.{pass, redirect}
use captcha_protect.Routes.{is_good_user_agent}
use captcha_protect.Access.{
  known_bot, verification_key, route_is_protected, is_good_bot, should_apply,
}
use captcha_protect.Access.Challenged.{should_apply_iff}
use captcha_protect.Access.Protected.{ByRegex, BySuffix, ByPrefix, route_is_protected_iff}
use captcha_protect.Routes.{is_extension_protected}
use captcha_protect.Tests.{wiki_config}
use captcha_protect.Serve.{endpoint, site, serve_http}
use captcha_protect.Serve.Challenge.{serve_http_pass_iff, serve_http_challenged}
use captcha_protect.Tests.{wiki_config}
use captcha_protect.Tests.Visits.{
  setup, start, visit, no_bot, escape, accepting, now, visitor, serve, at_site,
}

challenged :
    (serve_http memory_cache no_bot escape setup accepting now start visit).0
    ≡ redirect 302 (codes "/challenge?destination=/wiki/a") none
unfolding serve captcha_protect.Cache.find_item is_ip_excluded is_good_bot known_bot
    is_good_user_agent captcha_protect.Base.contains_text captcha_protect.Base.to_lower
    route_is_protected captcha_protect.Routes.route_is_protected_prefix
    captcha_protect.Routes.is_extension_protected captcha_protect.Base.trim_prefix
    captcha_protect.Routes.file_ext
challenged = refl

should_apply_example :
    ((should_apply memory_cache no_bot setup now start visit visitor).0 ≡ true) ↔ (
      (any (λ method. text_eq method (codes "GET")) wiki_config.protect_http_methods ≡ true)
      × (memory_cache.get start.verified_cache now (verification_key setup visit visitor) ≡ none)
      × (is_ip_excluded visitor [] ≡ false)
      × ((is_good_bot memory_cache no_bot setup now start visit visitor).0 ≡ false)
      × (is_good_user_agent wiki_config [] ≡ false)
      × (route_is_protected setup (codes "/wiki/a") ≡ true))
unfolding text_eq
should_apply_example = should_apply_iff memory_cache no_bot setup now start visit visitor

serve_http_pass_example :
    ((serve_http memory_cache no_bot escape setup accepting now start visit).0 ≡ pass) ↔ (
      (endpoint setup visit ≡ site)
      × ((should_apply memory_cache no_bot setup now start visit
            (get_client_ip wiki_config [] visit)).0
          ≡ false))
serve_http_pass_example =
    serve_http_pass_iff memory_cache no_bot escape setup accepting now start visit

visit_applies :
    (should_apply memory_cache no_bot setup now start visit (get_client_ip wiki_config [] visit)).0
    ≡ true
unfolding serve captcha_protect.Cache.find_item is_ip_excluded is_good_bot known_bot
    is_good_user_agent captcha_protect.Base.contains_text captcha_protect.Base.to_lower
    route_is_protected captcha_protect.Routes.route_is_protected_prefix
    captcha_protect.Routes.is_extension_protected captcha_protect.Base.trim_prefix
    captcha_protect.Routes.file_ext
visit_applies = refl

sent_to_challenge :
    (serve_http memory_cache no_bot escape setup accepting now start visit).0
    ≡ redirect 302 (codes "/challenge?destination=/wiki/a") none
unfolding challenge_on_page text_eq
sent_to_challenge =
    serve_http_challenged memory_cache no_bot escape setup accepting now start visit at_site
      visit_applies

route_is_protected_example : (route_is_protected setup visit.url_path ≡ true) ↔ (
    (is_extension_protected wiki_config visit.url_path ≡ true)
    × (((wiki_config.mode ≡ codes "regex") × ByRegex setup visit.url_path)
        ⊎ ((wiki_config.mode ≡ codes "suffix") × BySuffix setup visit.url_path)
        ⊎ ((wiki_config.mode ≢ codes "regex")
            × (wiki_config.mode ≢ codes "suffix")
            × ByPrefix setup visit.url_path)))
route_is_protected_example = route_is_protected_iff setup visit.url_path
