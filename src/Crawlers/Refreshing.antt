-- ===== src/Crawlers/Refreshing.antt =====
-- The loops of main.go that download the published ranges once a day.
use mathlib.Core.Path.{fun_ext}
use captcha_protect.Base.{
  Bool, false, ◌≡◌, refl, List, [], ◌∷◌, ◌++◌, map, Option, none, some, Text, codes, if◌then◌else◌,
  All, arith, ap, ◌∙◌,
}
use captcha_protect.Net.{IpNet, Addr}
use captcha_protect.Cidr.{reduce_cidrs}
use captcha_protect.Crawlers.{
  Download, update, refreshed, fetch_google_crawler_ips, refresh_google_crawler_ips,
  fetch_uptime_robot_ips, refresh_uptime_robot_ips, fetch_common_crawl_ips,
  refresh_common_crawl_ips,
}

-- `GoogleCrawlerIPRangeURLs`
abbrev pub google_crawler_ip_range_urls : List Text
google_crawler_ip_range_urls =
    codes "https://developers.google.com/static/search/apis/ipranges/googlebot.json"
    ∷ codes "https://developers.google.com/static/crawling/ipranges/common-crawlers.json"
    ∷ codes "https://developers.google.com/static/crawling/ipranges/special-crawlers.json"
    ∷ codes
        "https://developers.google.com/static/crawling/ipranges/user-triggered-fetchers-google.json"
    ∷ []

-- `CommonCrawlIPRangeURL`
abbrev pub common_crawl_ip_range_url : Text
common_crawl_ip_range_url = codes "https://index.commoncrawl.org/ccbot.json"

-- `UptimeRobotIPRangeURL`
abbrev pub uptime_robot_ip_range_url : Text
uptime_robot_ip_range_url = codes "https://api.uptimerobot.com/meta/ips"

-- What the network answers while a loop refreshes its ranges: the downloads, whether the context is
-- canceled when an address is looked at, and the reverse lookup for Common Crawl.
pub record Network : Type 0 where
  pub get : Text → Download
  pub canceled : Addr → Bool
  pub verified : Text → Bool

-- What wakes a loop: the ticker, or the end of the context.
pub data Wakeup : Type 0 where
  tick : Network → Wakeup
  done : Wakeup

-- The `for` with its `select`.
unfoldable pub wait_loop :
    (Network → List IpNet → List IpNet) → List Wakeup → List IpNet → List IpNet
wait_loop refresh [] ranges = ranges
wait_loop refresh (done ∷ wakeups) ranges = ranges
wait_loop refresh (tick network ∷ wakeups) ranges =
    wait_loop refresh wakeups (refresh network ranges)

-- A refresh at the start, unless the context is done, and then one at each tick.
unfoldable pub check_loop :
    (Network → List IpNet → List IpNet) → Bool → Network → List Wakeup → List IpNet → List IpNet
check_loop refresh is_done first wakeups ranges =
    if is_done then ranges else wait_loop refresh wakeups (refresh first ranges)

module _ (unmarshal : Text → Option (List (Text × Text))) where
  unfoldable pub googlebot_ip_check_loop : Bool → Network → List Wakeup → List IpNet → List IpNet
  googlebot_ip_check_loop =
      check_loop
        (λ network. refresh_google_crawler_ips unmarshal network.get google_crawler_ip_range_urls)

  unfoldable pub uptime_robot_ip_check_loop : Bool → Network → List Wakeup → List IpNet → List IpNet
  uptime_robot_ip_check_loop =
      check_loop
        (λ network. refresh_uptime_robot_ips unmarshal (network.get uptime_robot_ip_range_url))

  unfoldable pub common_crawl_ip_check_loop : Bool → Network → List Wakeup → List IpNet → List IpNet
  common_crawl_ip_check_loop = check_loop (λ network.
      refresh_common_crawl_ips unmarshal network.canceled network.verified
        (network.get common_crawl_ip_range_url))

-- What a refresh comes to: the ranges of what is fetched, or the old ones.
abbrev kept_or_taken : (List Text → List IpNet) → Option (List Text) → List IpNet → List IpNet
kept_or_taken taken none ranges = ranges
kept_or_taken taken (some cidrs) ranges = taken cidrs

cons_parts : (x y : Network) (xs ys : List Network) → x ∷ xs ≡ y ∷ ys → (x ≡ y) × (xs ≡ ys)
cons_parts x y xs ys e = (cc, cc)

ticks_split :
    (before after : List Network) (network : Network) (wakeups : List Wakeup)
    → map tick (before ++ (network ∷ after)) ++ (done ∷ wakeups)
      ≡ map tick before ++ (tick network ∷ (map tick after ++ (done ∷ wakeups)))
ticks_split [] after network wakeups = refl
ticks_split (other ∷ before) after network wakeups =
    ap (λ (l : List Wakeup). tick other ∷ l) (ticks_split before after network wakeups)

module _ (fetch : Network → Option (List Text)) (taken : List Text → List IpNet) where
  abbrev refresh_by : Network → List IpNet → List IpNet
  refresh_by network ranges = kept_or_taken taken (fetch network) ranges

  wait_loop_failing :
      (after : List Network) (wakeups : List Wakeup) (ranges : List IpNet)
      → All (λ network. fetch network ≡ none) after
      → wait_loop refresh_by (map tick after ++ (done ∷ wakeups)) ranges ≡ ranges
  unfolding wait_loop
  wait_loop_failing [] wakeups ranges h = refl
  wait_loop_failing (network ∷ after) wakeups ranges (h, hs) =
      let kept : refresh_by network ranges ≡ ranges = rw h refl in
      ap (wait_loop refresh_by (map tick after ++ (done ∷ wakeups))) kept
      ∙ wait_loop_failing after wakeups ranges hs

  -- The wakeups up to the end: those before a download that succeeds, and those after it, which
  -- fail.
  wait_loop_latest :
      (before after : List Network) (network : Network) (wakeups : List Wakeup) (cidrs : List Text)
      (ranges : List IpNet)
      → fetch network ≡ some cidrs
      → All (λ other. fetch other ≡ none) after
      → wait_loop refresh_by
          (map tick before ++ (tick network ∷ (map tick after ++ (done ∷ wakeups))))
          ranges
        ≡ taken cidrs
  unfolding wait_loop
  wait_loop_latest [] after network wakeups cidrs ranges h hs =
      let new : refresh_by network ranges ≡ taken cidrs = rw h refl in
      ap (wait_loop refresh_by (map tick after ++ (done ∷ wakeups))) new
      ∙ wait_loop_failing after wakeups (taken cidrs) hs
  wait_loop_latest (other ∷ before) after network wakeups cidrs ranges h hs =
      wait_loop_latest before after network wakeups cidrs (refresh_by other ranges) h hs

  -- The downloads are the one at the start and those at the ticks.
  check_loop_latest :
      (first : Network) (ticks before after : List Network) (network : Network)
      (wakeups : List Wakeup) (cidrs : List Text) (ranges : List IpNet)
      → first ∷ ticks ≡ before ++ (network ∷ after)
      → fetch network ≡ some cidrs
      → All (λ other. fetch other ≡ none) after
      → check_loop refresh_by false first (map tick ticks ++ (done ∷ wakeups)) ranges ≡ taken cidrs
  unfolding check_loop
  check_loop_latest first ticks [] after network wakeups cidrs ranges e h hs =
      let (same, rest) = cons_parts first network ticks after e in
      let new : refresh_by first ranges ≡ taken cidrs = rw (same, h) refl in
      rw (rest, new) (wait_loop_failing after wakeups (taken cidrs) hs)
  check_loop_latest first ticks (other ∷ before) after network wakeups cidrs ranges e h hs =
      let (_, rest) = cons_parts first other ticks (before ++ (network ∷ after)) e in
      rw (rest, ticks_split before after network wakeups)
        (wait_loop_latest before after network wakeups cidrs (refresh_by first ranges) h hs)

module _ (unmarshal : Text → Option (List (Text × Text))) where
  -- What is downloaded for each of the three sets of ranges.
  abbrev pub google_fetch : Network → Option (List Text)
  google_fetch network = fetch_google_crawler_ips unmarshal network.get google_crawler_ip_range_urls

  abbrev pub uptime_robot_fetch : Network → Option (List Text)
  uptime_robot_fetch network =
      fetch_uptime_robot_ips unmarshal (network.get uptime_robot_ip_range_url)

  abbrev pub common_crawl_fetch : Network → Option (List Text)
  common_crawl_fetch network =
      fetch_common_crawl_ips unmarshal network.canceled network.verified
        (network.get common_crawl_ip_range_url)

  google_refresh :
      (network : Network) (ranges : List IpNet)
      → refresh_google_crawler_ips unmarshal network.get google_crawler_ip_range_urls ranges
        ≡ refresh_by google_fetch update network ranges
  unfolding refresh_google_crawler_ips refreshed
  google_refresh network ranges = ground arith

  uptime_robot_refresh :
      (network : Network) (ranges : List IpNet)
      → refresh_uptime_robot_ips unmarshal (network.get uptime_robot_ip_range_url) ranges
        ≡ refresh_by uptime_robot_fetch (λ cidrs. update (reduce_cidrs cidrs)) network ranges
  unfolding refresh_uptime_robot_ips
  uptime_robot_refresh network ranges = ground arith

  common_crawl_refresh :
      (network : Network) (ranges : List IpNet)
      → refresh_common_crawl_ips unmarshal network.canceled network.verified
          (network.get common_crawl_ip_range_url)
          ranges
        ≡ refresh_by common_crawl_fetch update network ranges
  unfolding refresh_common_crawl_ips refreshed
  common_crawl_refresh network ranges = ground arith

  -- The loop for Google's crawlers, unless it is done before it begins, ends with the ranges of the
  -- last download that succeeded, be it the one at the start or one at a tick, however many downloads
  -- came before, failed after it, or would have come after the end.
  pub googlebot_ip_check_loop_latest :
      (first : Network) (ticks before after : List Network) (network : Network)
      (wakeups : List Wakeup) (cidrs : List Text) (ranges : List IpNet)
      → first ∷ ticks ≡ before ++ (network ∷ after)
      → google_fetch network ≡ some cidrs
      → All (λ other. google_fetch other ≡ none) after
      → googlebot_ip_check_loop unmarshal false first (map tick ticks ++ (done ∷ wakeups)) ranges
        ≡ update cidrs
  unfolding googlebot_ip_check_loop
  googlebot_ip_check_loop_latest first ticks before after network wakeups cidrs ranges e h hs =
      rw (fun_ext (λ n. fun_ext (google_refresh n))) (
        check_loop_latest google_fetch update first ticks before after network wakeups cidrs ranges
          e h hs)

  -- So does the loop for UptimeRobot.
  pub uptime_robot_ip_check_loop_latest :
      (first : Network) (ticks before after : List Network) (network : Network)
      (wakeups : List Wakeup) (cidrs : List Text) (ranges : List IpNet)
      → first ∷ ticks ≡ before ++ (network ∷ after)
      → uptime_robot_fetch network ≡ some cidrs
      → All (λ other. uptime_robot_fetch other ≡ none) after
      → uptime_robot_ip_check_loop unmarshal false first (map tick ticks ++ (done ∷ wakeups)) ranges
        ≡ update (reduce_cidrs cidrs)
  unfolding uptime_robot_ip_check_loop
  uptime_robot_ip_check_loop_latest first ticks before after network wakeups cidrs ranges e h hs =
      rw (fun_ext (λ n. fun_ext (uptime_robot_refresh n))) (
        check_loop_latest uptime_robot_fetch (λ cidrs. update (reduce_cidrs cidrs)) first ticks
          before after network wakeups cidrs ranges e h hs)

  -- So does the loop for Common Crawl.
  pub common_crawl_ip_check_loop_latest :
      (first : Network) (ticks before after : List Network) (network : Network)
      (wakeups : List Wakeup) (cidrs : List Text) (ranges : List IpNet)
      → first ∷ ticks ≡ before ++ (network ∷ after)
      → common_crawl_fetch network ≡ some cidrs
      → All (λ other. common_crawl_fetch other ≡ none) after
      → common_crawl_ip_check_loop unmarshal false first (map tick ticks ++ (done ∷ wakeups)) ranges
        ≡ update cidrs
  unfolding common_crawl_ip_check_loop
  common_crawl_ip_check_loop_latest first ticks before after network wakeups cidrs ranges e h hs =
      rw (fun_ext (λ n. fun_ext (common_crawl_refresh n))) (
        check_loop_latest common_crawl_fetch update first ticks before after network wakeups cidrs
          ranges e h hs)
