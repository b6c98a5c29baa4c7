-- ===== src/Crawlers/UptimeRobot.antt =====
-- What is taken over from UptimeRobot.
use captcha_protect.Base.{
  ◌≡◌, ◌≢◌, inl, inr, length, List, [], ◌∷◌, Option, none, some, Text, arith, All, Option-cases,
}
use captcha_protect.Net.{parse_cidr}
use captcha_protect.Crawlers.{Download, published, validated, limited_body, fetch_uptime_robot_ips}

validated-All :
    (cidrs found : List Text)
    → validated cidrs ≡ some found
    → All (λ cidr. parse_cidr cidr ≢ none) found
unfolding validated
validated-All [] [] h = tt
validated-All [] (x ∷ found) h = absurd (ground arith)
validated-All (cidr ∷ cidrs) [] h = tt
validated-All (cidr ∷ cidrs) (x ∷ found) h =
    let parts : (x ≡ cidr) × (parse_cidr cidr ≢ none) × (validated cidrs ≡ some found) =
      ground arith in
    (rw parts.0 parts.1, validated-All cidrs found parts.2)

module _ (unmarshal : Text → Option (List (Text × Text))) where
  -- A download from UptimeRobot that succeeds gives at least one range, and each of them parses.
  pub fetch_uptime_robot_ips_valid :
      (download : Download) (cidrs : List Text)
      → fetch_uptime_robot_ips unmarshal download ≡ some cidrs
      → (cidrs ≢ []) × All (λ cidr. parse_cidr cidr ≢ none) cidrs
  unfolding fetch_uptime_robot_ips
  fetch_uptime_robot_ips_valid download cidrs h =
      elim (Option-cases (limited_body unmarshal download)) [
        | inl e ↦ absurd (ground arith)
        | inr (prefixes, e) ↦
            let parts : (validated (published prefixes) ≡ some cidrs) × (length cidrs ≢ 0) =
              ground arith in
            ((λ empty. ground arith), validated-All (published prefixes) cidrs parts.0)
      ]
