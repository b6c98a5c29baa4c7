-- ===== src/System/History.antt =====
-- What a visitor who reaches the site has done before, in this lifetime or an earlier one.
use captcha_protect.Base.{
  ℕ, ◌<◌, ◌≡◌, ◌≢◌, ◌⊎◌, refl, Bool, true, false, none, some, Option, List, Text, text_eq, any, All,
  AllPairs, IsNonneg,
}
use captcha_protect.Request.{user_agent}
use captcha_protect.Cache.{Cache, IsLawful}
use captcha_protect.ClientIp.{is_ip_excluded}
use captcha_protect.Routes.{is_good_user_agent}
use captcha_protect.Snapshot.{CacheEntry}
use captcha_protect.Middleware.{Setup, pass}
use captcha_protect.Access.{is_good_bot, verification_key, route_is_protected}
use captcha_protect.Persist.Reader.{read_state}
use captcha_protect.Serve.{site, endpoint}
use captcha_protect.Serve.Visits.{Visit, serve, address}
use captcha_protect.Serve.History.{pass_because}
use captcha_protect.System.{Event, AreOver, IsOrdered, after, fresh, SolvedBefore}
use captcha_protect.System.Regular.{IsRegular, window, default-new_state}
use captcha_protect.System.Kept.{new_state-none}
use captcha_protect.System.Verified.{after-IsAccounted}

-- From a first start without a state file, whatever visits, background work, saves that succeed or
-- fail, crashes and starts from the state file came before, one after another: a request that then
-- reaches the site is for none of the middleware's own endpoints, and its method is not protected, its
-- address is exempt or a good bot's, its user agent is exempt, its path is not protected, or one of
-- those visits, in this lifetime or an earlier one, passed the challenge, was remembered under the key
-- of this request, and is not over yet. The cache meets its laws, the window is positive, the
-- times end before the last nanosecond of 63 bits, the addresses of the visits are valid UTF-8,
-- randomness is bytes, the background leaves the verified visitors alone, and encoding/json reads what
-- the strict reader reads, where no key comes twice.
pub serve_http_pass_lifetimes :
    {C : Cache} (L : IsLawful C) (query_escape : Text → Text) (setup : Setup)
    (unmarshal : Text → Option (List (Text × CacheEntry))) (first : ℕ) (locked : Bool)
    (events : List (Event C)) (v : Visit)
    → ((t : Text) (entries : List (Text × CacheEntry))
        → read_state t ≡ some entries
        → AllPairs (λ a b. a.0 ≢ b.0) entries
        → unmarshal t ≡ some entries)
    → 0 < window L query_escape setup unmarshal
    → All (IsRegular L query_escape setup unmarshal) events
    → IsOrdered events
    → AreOver v.moment events
    → IsNonneg v.moment
    → let m = fresh C query_escape setup unmarshal first locked in
      let st = (after C query_escape setup unmarshal events m).st in
      let ip = address C query_escape setup v in
      (serve C query_escape setup v st).0 ≡ pass
      → (endpoint setup v.request ≡ site)
        × ((any (λ method. text_eq method v.request.method) setup.config.protect_http_methods
              ≡ false)
            ⊎ SolvedBefore C query_escape setup unmarshal events m
                (verification_key setup v.request ip)
                v.moment
            ⊎ (is_ip_excluded ip setup.exempt_ips ≡ true)
            ⊎ ((is_good_bot C v.lookup setup v.moment st v.request ip).0 ≡ true)
            ⊎ (is_good_user_agent setup.config (user_agent v.request) ≡ true)
            ⊎ (route_is_protected setup v.request.url_path ≡ false))
serve_http_pass_lifetimes {C} L query_escape setup unmarshal first locked events v decodes positive
      regular ordered ended fits passed =
    let m = fresh C query_escape setup unmarshal first locked in
    let (known, _) =
      after-IsAccounted L v.lookup query_escape setup unmarshal decodes m events positive
        (default-new_state L query_escape setup unmarshal locked none first)
        (λ key later.
          new_state-none L v.lookup query_escape setup unmarshal decodes m locked first later key)
        refl regular ordered in
    pass_because L query_escape setup v (after C query_escape setup unmarshal events m).st _
      (known (verification_key setup v.request (address C query_escape setup v)) v.moment ended
        fits)
      passed
