-- ===== src/Tests/Looping.antt =====
-- Tests of the background loops, with the theorems at concrete data.
use captcha_protect.Base.{
  ℕ, ◌+◌, ◌*◌, ◌≡◌, ◌≤◌, ◌<◌, refl, List, [], ◌∷◌, ◌++◌, map, Option, none, some, Bool, true, false,
  Text, codes, text_eq, arith, All, AllPairs,
}
use captcha_protect.Cache.Memory.{memory_cache}
use captcha_protect.Cidr.{reduce_cidrs}
use captcha_protect.Middleware.{State}
use captcha_protect.Verify.{second, mark_state_dirty}
use captcha_protect.Crawlers.{Download, answer, no_answer, update}
use captcha_protect.Crawlers.Refreshing.{
  Network, tick, done, googlebot_ip_check_loop, google_fetch, googlebot_ip_check_loop_latest,
}
use captcha_protect.Saving.{state_save_interval, has_unsaved_state}
use captcha_protect.Saving.Jitter.{save_interval, max_state_save_jitter, save_interval_bounds}
use captcha_protect.Saving.Loop.{
  Turn, ticked, stopped, save_loop, save_state, save_state-AllPairs, save_state_stopped,
}
use captcha_protect.Tests.Crawling.{decode}
use captcha_protect.Tests.Storing.{saving_config, empty_state}

-- A random source that fails.
abbrev broken : ℕ → Option ℕ
broken max = none

broken_draws : (max jitter : ℕ) → broken max ≡ some jitter → jitter < max
broken_draws max jitter e = cc

save_interval_bounds_example :
    (state_save_interval ≤ save_interval broken (codes "host") 17 (5 * second))
    × (save_interval broken (codes "host") 17 (5 * second)
        < state_save_interval + max_state_save_jitter)
save_interval_bounds_example =
    save_interval_bounds broken (codes "host") 17 (5 * second) broken_draws

-- A request comes before each tick.
abbrev busy : State memory_cache → State memory_cache
busy st = mark_state_dirty saving_config st

abbrev quiet : State memory_cache → State memory_cache
quiet st = st

abbrev at_second : ℕ → Turn memory_cache
at_second n = ticked (n * second) true busy quiet

abbrev turns : List (Turn memory_cache)
turns = at_second 1 ∷ at_second 2 ∷ at_second 70 ∷ []

-- The second tick comes too soon, and the last change is saved at the end.
save_run :
    let (saves, final) =
      save_state true true (61 * second) (turns ++ (stopped true busy quiet ∷ [])) empty_state in
    (saves ≡ second ∷ 70 * second ∷ []) × (final.state_saved_dirty ≡ 9)
unfolding save_state save_loop captcha_protect.Saving.save_tick has_unsaved_state mark_state_dirty
    text_eq captcha_protect.Saving.save_state_now captcha_protect.Saving.save_at_shutdown
save_run = (refl, refl)

save_state-AllPairs_example :
    AllPairs
      (λ t t'. t + state_save_interval ≤ t')
      (save_state true true (save_interval broken (codes "host") 17 0) turns empty_state).0
save_state-AllPairs_example =
    save_state-AllPairs broken (codes "host") 17 0 true true turns empty_state broken_draws

save_state_stopped_example :
    has_unsaved_state
      (save_state true true
        (61 * second)
        (turns ++ (stopped true busy (λ s. s) ∷ []))
        empty_state).1
    ≡ false
save_state_stopped_example =
    save_state_stopped (61 * second) turns [] busy empty_state (tt, (tt, (tt, tt)))

abbrev online : Network
online = record {
  get = λ url. answer 200 (some (codes "g"));
  canceled = λ a. false;
  verified = λ ip. true;
}

abbrev offline : Network
offline = record { get = λ url. no_answer; canceled = λ a. false; verified = λ ip. true }

fetched : google_fetch decode online ≡ some (codes "192.0.2.0/30" ∷ codes "2001:db8::/32" ∷ [])
unfolding captcha_protect.Crawlers.fetch_google_crawler_ips captcha_protect.Crawlers.fetch_all
    captcha_protect.Crawlers.fetch_googlebot_ips captcha_protect.Crawlers.body_of text_eq
    captcha_protect.Cidr.reduce_cidrs captcha_protect.Crawlers.published
    captcha_protect.Net.parse_prefix captcha_protect.Base.last_index_byte
    captcha_protect.Net.parse_addr captcha_protect.Base.any captcha_protect.Base.parse_decimal
    captcha_protect.Cidr.less captcha_protect.Net.masked captcha_protect.Cidr.covers
    captcha_protect.Net.prefix_contains captcha_protect.Net.prefix_string
    captcha_protect.Net.addr_less captcha_protect.Net.addr_string captcha_protect.Net.decimal_string
fetched = refl

unreachable : google_fetch decode offline ≡ none
unfolding captcha_protect.Crawlers.fetch_google_crawler_ips captcha_protect.Crawlers.fetch_all
    captcha_protect.Crawlers.fetch_googlebot_ips captcha_protect.Crawlers.body_of
unreachable = refl

-- The download at the start is the last that succeeds.
googlebot_ip_check_loop_latest_example :
    googlebot_ip_check_loop decode false online
      (tick offline ∷ tick offline ∷ done ∷ tick online ∷ [])
      []
    ≡ update (codes "192.0.2.0/30" ∷ codes "2001:db8::/32" ∷ [])
googlebot_ip_check_loop_latest_example =
    googlebot_ip_check_loop_latest decode online (offline ∷ offline ∷ []) []
      (offline ∷ offline ∷ []) online (tick online ∷ [])
      (codes "192.0.2.0/30" ∷ codes "2001:db8::/32" ∷ []) [] refl fetched
      (unreachable, (unreachable, tt))
