-- ===== src/EndToEnd/Configs.antt =====
-- The two configurations that the driver of ci/cap/main.go gives to Traefik, and the replacement of
-- the keys: `routingConfig`, `protectedConfig`, `strings.NewReplacer`.
use captcha_protect.Base.{
  ℕ, zero, suc, List, [], ◌∷◌, ◌++◌, Option, none, some, Text, codes, starts_with, length,
  if◌then◌else◌, ◌-◌,
}
use captcha_protect.Scripts.{join_lines}

unfoldable pub routing_config : Text
unfolding join_lines
routing_config = join_lines (
    codes "http:"
    ∷ codes "  routers:"
    ∷ codes "    cap:"
    ∷ codes "      entryPoints: [http]"
    ∷ codes "      rule: \"Path(`/cap`) || PathPrefix(`/cap/`)\""
    ∷ codes "      service: cap"
    ∷ codes "  services:"
    ∷ codes "    cap:"
    ∷ codes "      loadBalancer:"
    ∷ codes "        servers:"
    ∷ codes "          - url: \"http://cap:3000\""
    ∷ codes ""
    ∷ [])

unfoldable pub protected_config : Text
unfolding join_lines
protected_config = join_lines (
    codes "http:"
    ∷ codes "  routers:"
    ∷ codes "    cap:"
    ∷ codes "      entryPoints: [http]"
    ∷ codes "      rule: \"Path(`/cap`) || PathPrefix(`/cap/`)\""
    ∷ codes "      service: cap"
    ∷ codes "    site:"
    ∷ codes "      entryPoints: [http]"
    ∷ codes "      rule: \"PathPrefix(`/`)\""
    ∷ codes "      service: nginx"
    ∷ codes "      middlewares: [captcha-cap]"
    ∷ codes "    app2:"
    ∷ codes "      entryPoints: [http]"
    ∷ codes "      rule: \"PathPrefix(`/app2`)\""
    ∷ codes "      service: nginx2"
    ∷ codes "      middlewares: [captcha-cap-hidden]"
    ∷ codes "    app3:"
    ∷ codes "      entryPoints: [http]"
    ∷ codes "      rule: \"PathPrefix(`/app3`)\""
    ∷ codes "      service: nginx2"
    ∷ codes "      middlewares: [captcha-cap-click]"
    ∷ codes "  services:"
    ∷ codes "    cap:"
    ∷ codes "      loadBalancer:"
    ∷ codes "        servers:"
    ∷ codes "          - url: \"http://cap:3000\""
    ∷ codes "    nginx:"
    ∷ codes "      loadBalancer:"
    ∷ codes "        servers:"
    ∷ codes "          - url: \"http://nginx:80\""
    ∷ codes "    nginx2:"
    ∷ codes "      loadBalancer:"
    ∷ codes "        servers:"
    ∷ codes "          - url: \"http://nginx2:80\""
    ∷ codes "  middlewares:"
    ∷ codes "    captcha-cap:"
    ∷ codes "      plugin:"
    ∷ codes "        captcha-protect:"
    ∷ codes "          captchaProvider: cap"
    ∷ codes "          siteKey: \"{{SITE_KEY}}\""
    ∷ codes "          secretKey: \"{{SECRET_KEY}}\""
    ∷ codes "          capURL: /cap"
    ∷ codes "          capVerifyURL: http://cap:3000/cap"
    ∷ codes "          window: 120"
    ∷ codes "          ipForwardedHeader: X-Forwarded-For"
    ∷ codes "          logLevel: DEBUG"
    ∷ codes "          protectRoutes: [\"/\"]"
    ∷ codes "          goodBots: []"
    ∷ codes "          enableCommonCrawlIPCheck: \"false\""
    ∷ codes "          periodSeconds: 2"
    ∷ codes "          failureThreshold: 2"
    ∷ codes "    captcha-cap-hidden:"
    ∷ codes "      plugin:"
    ∷ codes "        captcha-protect:"
    ∷ codes "          captchaProvider: cap"
    ∷ codes "          siteKey: \"{{SITE_KEY}}\""
    ∷ codes "          secretKey: \"{{SECRET_KEY}}\""
    ∷ codes "          capURL: /cap"
    ∷ codes "          capVerifyURL: http://cap:3000/cap"
    ∷ codes "          window: 120"
    ∷ codes "          ipForwardedHeader: X-Forwarded-For"
    ∷ codes "          logLevel: DEBUG"
    ∷ codes "          protectRoutes: [\"/app2\"]"
    ∷ codes "          goodBots: []"
    ∷ codes "          enableCommonCrawlIPCheck: \"false\""
    ∷ codes "          challengeURL: /app2/challenge"
    ∷ codes "          challengeTmpl: /etc/traefik/templates/interaction-only.tmpl.html"
    ∷ codes "    captcha-cap-click:"
    ∷ codes "      plugin:"
    ∷ codes "        captcha-protect:"
    ∷ codes "          captchaProvider: cap"
    ∷ codes "          siteKey: \"{{SITE_KEY}}\""
    ∷ codes "          secretKey: \"{{SECRET_KEY}}\""
    ∷ codes "          capURL: /cap"
    ∷ codes "          capVerifyURL: http://cap:3000/cap"
    ∷ codes "          window: 120"
    ∷ codes "          ipForwardedHeader: X-Forwarded-For"
    ∷ codes "          logLevel: DEBUG"
    ∷ codes "          protectRoutes: [\"/app3\"]"
    ∷ codes "          goodBots: []"
    ∷ codes "          enableCommonCrawlIPCheck: \"false\""
    ∷ codes "          challengeURL: /app3/challenge"
    ∷ codes "          challengeTmpl: /etc/traefik/templates/click-to-verify.tmpl.html"
    ∷ codes ""
    ∷ [])

-- The first pair whose text begins here.
unfoldable pub find_pair : List (Text × Text) → Text → Option (Text × Text)
find_pair [] t = none
find_pair ((old, new) ∷ pairs) t = if starts_with t old then some (old, new) else find_pair pairs t

-- `Replacer.Replace`, where no text to replace is empty; the rest of a replaced text is skipped.
unfoldable pub replace_loop : List (Text × Text) → ℕ → Text → Text
replace_loop pairs skip [] = []
replace_loop pairs (suc skip) (c ∷ t) = replace_loop pairs skip t
replace_loop pairs zero (c ∷ t) = elim (find_pair pairs (c ∷ t)) [
  | none ↦ c ∷ replace_loop pairs zero t
  | some (old, new) ↦ new ++ replace_loop pairs (length old - 1) t
]

-- The configuration that protects the sites, with the keys.
unfoldable pub keyed_config : Text → Text → Text
keyed_config site_key secret_key =
    replace_loop ((codes "{{SITE_KEY}}", site_key) ∷ (codes "{{SECRET_KEY}}", secret_key) ∷ []) 0
      protected_config
