-- ===== src/Crawlers/Google.antt =====
-- One failed download leaves the ranges as they are.
use captcha_protect.Base.{◌≡◌, ◌↔◌, refl, List, [], ◌∷◌, Any, Option, none, Text, arith}
use captcha_protect.Net.{IpNet}
use captcha_protect.Crawlers.{
  Download, fetch_googlebot_ips, fetch_all, fetch_google_crawler_ips, refresh_google_crawler_ips,
  refreshed,
}

module _ (unmarshal : Text → Option (List (Text × Text))) (get : Text → Download) where
  fetch_all_fails_iff :
      (urls : List Text)
      → (fetch_all unmarshal get urls ≡ none)
        ↔ Any (λ url. fetch_googlebot_ips unmarshal get url ≡ none) urls
  unfolding fetch_all
  fetch_all_fails_iff [] = (λ e. ground arith, λ e. absurd e)
  fetch_all_fails_iff (url ∷ urls) = let rest = fetch_all_fails_iff urls in ground arith

  fetch_google_crawler_ips_fails_iff :
      (urls : List Text)
      → (fetch_google_crawler_ips unmarshal get urls ≡ none)
        ↔ Any (λ url. fetch_googlebot_ips unmarshal get url ≡ none) urls
  unfolding fetch_google_crawler_ips
  fetch_google_crawler_ips_fails_iff [] = (λ e. ground arith, λ e. absurd e)
  fetch_google_crawler_ips_fails_iff (url ∷ urls) =
      let all = fetch_all_fails_iff (url ∷ urls) in ground arith

  -- If the download from one of the URLs fails, whatever the others give, the ranges stay as they
  -- are.
  pub refresh_google_crawler_ips_failed :
      (urls : List Text) (ranges : List IpNet)
      → Any (λ url. fetch_googlebot_ips unmarshal get url ≡ none) urls
      → refresh_google_crawler_ips unmarshal get urls ranges ≡ ranges
  unfolding refresh_google_crawler_ips refreshed
  refresh_google_crawler_ips_failed urls ranges failed =
      rw ((fetch_google_crawler_ips_fails_iff urls).1 failed) refl
