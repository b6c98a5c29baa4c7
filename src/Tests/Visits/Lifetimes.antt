-- ===== src/Tests/Visits/Lifetimes.antt =====
-- A visitor who passes the challenge and comes back after a restart, with the theorem on what came
-- before, in any lifetime.
use mathlib.Core.Option.{some-injective}
use captcha_protect.Base.{
  ℕ, ◌+◌, ◌*◌, ◌<◌, ◌≡◌, ◌⊎◌, inl, refl, ap, sym, List, [], ◌∷◌, some, none, true, false, text_eq,
  arith, any, All,
}
use captcha_protect.Cache.Memory.{memory_cache, memory_cache-IsLawful}
use captcha_protect.ClientIp.{get_client_ip, is_ip_excluded}
use captcha_protect.Encoding.{valid_string}
use captcha_protect.Middleware.{pass}
use captcha_protect.Request.{user_agent}
use captcha_protect.Routes.{is_good_user_agent}
use captcha_protect.Access.{verification_key, is_good_bot, route_is_protected}
use captcha_protect.Persist.Reader.{read_state}
use captcha_protect.Serve.{endpoint, site}
use captcha_protect.Serve.Visits.{serve, address, Solves}
use captcha_protect.Startup.Restart.{serve_http_restarted}
use captcha_protect.System.{
  Machine, Event, visited, background, saved, restarted, step, fresh, after, SolvedBefore,
}
use captcha_protect.System.Regular.{IsRegular}
use captcha_protect.System.Liveness.{serve_http_lifetimes_pass}
use captcha_protect.System.History.{serve_http_pass_lifetimes}
use captcha_protect.Verify.{second}
use captcha_protect.Tests.Visits.{
  start, day, visit, no_bot, escape, solution, refusing, accepting, now, visitor, verify,
}
use captcha_protect.Tests.Visits.History.{solving, coming_back}
use captcha_protect.Tests.Visits.Restarting.{
  kept_on_disk, remembered, address_on_disk, solved_on_disk, site_on_disk, nonneg, writable,
}

abbrev first : Machine memory_cache
first = fresh memory_cache escape kept_on_disk read_state 0 true

-- The visitor passes the challenge, the state is saved, and the middleware starts again.
abbrev events : List (Event memory_cache)
events =
    restarted (90 * second) true
    ∷ saved (60 * second) true true
    ∷ background (30 * second) (λ s. record s { state_dirty = 7 })
    ∷ visited solving
    ∷ []

abbrev last : Machine memory_cache
last = after memory_cache escape kept_on_disk read_state events first

-- The first start is with an empty cache, so the visitor is remembered as in the other test.
same_cache : (serve memory_cache escape kept_on_disk solving first.st).1.verified_cache ≡ remembered
unfolding verify captcha_protect.Tests.Visits.serve captcha_protect.Startup.new_state
    captcha_protect.Persist.load_state_from_file get_client_ip captcha_protect.ClientIp.strip_port
    captcha_protect.Base.contains_text captcha_protect.Base.split is_ip_excluded
    captcha_protect.Base.trim_space
same_cache = refl

back : (serve memory_cache escape kept_on_disk coming_back last.st).0 ≡ pass
unfolding after step text_eq captcha_protect.Circuit.get_active_captcha_config
    captcha_protect.Circuit.has_fallback_provider
back = rw same_cache (
    ap (λ r. r.0)
      (serve_http_restarted memory_cache-IsLawful no_bot escape kept_on_disk read_state accepting
        refusing now (60 * second) (90 * second) (now + day) start solution visit visitor none
        remembered (λ e. ground arith) (λ e. ground arith) solved_on_disk (omega arith)
        (omega arith) (omega arith) (omega arith) (omega arith) site_on_disk address_on_disk refl
        nonneg writable (λ t entries reads distinct. reads)))

here : valid_string (address memory_cache escape kept_on_disk solving) ≡ true
unfolding get_client_ip captcha_protect.ClientIp.strip_port captcha_protect.Base.contains_text
    text_eq captcha_protect.Base.split any captcha_protect.Base.trim_space is_ip_excluded
    captcha_protect.Encoding.valid_loop captcha_protect.Encoding.rune_tail
here = refl

small : (bytes : List ℕ) → accepting.session_bytes ≡ some bytes → All (λ b. b < 256) bytes
small bytes e = rw (sym (some-injective _ _ e)) (omega arith)

regular : All (IsRegular memory_cache-IsLawful escape kept_on_disk read_state) events
regular = (
  omega arith,
  (omega arith, ((omega arith, λ s. refl), ((omega arith, omega arith, here, small), tt))),
)

serve_http_pass_lifetimes_example :
    (endpoint kept_on_disk visit ≡ site)
    × ((any (λ method. text_eq method visit.method) kept_on_disk.config.protect_http_methods
          ≡ false)
        ⊎ SolvedBefore memory_cache escape kept_on_disk read_state events first
            (verification_key kept_on_disk visit
              (address memory_cache escape kept_on_disk coming_back))
            (now + day)
        ⊎ (is_ip_excluded
              (address memory_cache escape kept_on_disk coming_back)
              kept_on_disk.exempt_ips
            ≡ true)
        ⊎ ((is_good_bot memory_cache no_bot kept_on_disk
              (now + day)
              last.st
              visit
              (address memory_cache escape kept_on_disk coming_back)).0
            ≡ true)
        ⊎ (is_good_user_agent kept_on_disk.config (user_agent visit) ≡ true)
        ⊎ (route_is_protected kept_on_disk visit.url_path ≡ false))
serve_http_pass_lifetimes_example =
    serve_http_pass_lifetimes memory_cache-IsLawful escape kept_on_disk read_state 0 true events
      coming_back (λ t entries reads distinct. reads) (omega arith) regular (ground arith)
      (ground arith) (omega arith) back

-- What comes after the challenge.
abbrev since : List (Event memory_cache)
since =
    restarted (90 * second) true
    ∷ saved (60 * second) true true
    ∷ background (30 * second) (λ s. record s { state_dirty = 7 })
    ∷ []

solves :
    Solves memory_cache escape kept_on_disk solving
      (after memory_cache escape kept_on_disk read_state [] first).st
      visitor
      (now + day)
unfolding after verify captcha_protect.Tests.Visits.serve captcha_protect.Startup.new_state
    captcha_protect.Persist.load_state_from_file get_client_ip captcha_protect.ClientIp.strip_port
    captcha_protect.Base.contains_text captcha_protect.Base.split is_ip_excluded
    captcha_protect.Base.trim_space
solves = (refl, refl, inl ((λ e. ground arith), refl), omega arith)

named :
    verification_key kept_on_disk visit (address memory_cache escape kept_on_disk coming_back)
    ≡ visitor
unfolding verification_key get_client_ip captcha_protect.ClientIp.strip_port
    captcha_protect.Base.contains_text text_eq captcha_protect.Base.split is_ip_excluded
    captcha_protect.Base.trim_space any
named = refl

serve_http_lifetimes_pass_example :
    serve memory_cache escape kept_on_disk coming_back last.st ≡ (pass, last.st)
serve_http_lifetimes_pass_example =
    serve_http_lifetimes_pass memory_cache-IsLawful escape kept_on_disk read_state
      (λ t entries reads distinct. reads) 0 true [] since solving coming_back visitor (now + day)
      (λ e. ground arith) (omega arith) regular (ground arith) solves
      ((λ h. h), ((λ h. h), ((λ h. h), tt))) (refl, tt, tt) (ground arith) (omega arith)
      (omega arith) site_on_disk named
