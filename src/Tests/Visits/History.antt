-- ===== src/Tests/Visits/History.antt =====
-- A visitor who passes the challenge and comes back, with the theorem on what came before.
use captcha_protect.Base.{
  ℕ, ◌+◌, ◌*◌, ◌≡◌, ◌⊎◌, refl, List, [], ◌∷◌, Bool, true, false, Text, codes, text_eq, arith, any,
}
use captcha_protect.Cache.Memory.{memory_cache, memory_cache-IsLawful}
use captcha_protect.ClientIp.{get_client_ip, is_ip_excluded}
use captcha_protect.Routes.{is_good_user_agent}
use captcha_protect.Request.{user_agent}
use captcha_protect.Middleware.{State, pass}
use captcha_protect.Access.{verification_key, is_good_bot, route_is_protected}
use captcha_protect.Serve.{endpoint, site}
use captcha_protect.Serve.Visits.{Visit, run, serve, Solved}
use captcha_protect.Serve.History.{serve_http_pass_history}
use captcha_protect.Tests.Visits.{
  setup, day, start, visit, no_bot, escape, solution, accepting, refusing, now, verify,
}

abbrev pub solving : Visit
solving = record { moment = now; out = accepting; lookup = no_bot; request = solution }

abbrev pub coming_back : Visit
coming_back = record { moment = now + day; out = refusing; lookup = no_bot; request = visit }

-- A save happens before the visitor comes.
abbrev history : List ((State memory_cache → State memory_cache) × Visit)
history = ((λ s. record s { state_saved_dirty = s.state_dirty }), solving) ∷ []

abbrev after : State memory_cache
after = run memory_cache escape setup history start

back : (serve memory_cache escape setup coming_back after).0 ≡ pass
unfolding run verify captcha_protect.Tests.Visits.serve captcha_protect.Cache.find_item
    get_client_ip captcha_protect.ClientIp.strip_port captcha_protect.Base.contains_text
    captcha_protect.Base.split is_ip_excluded captcha_protect.Base.trim_space verification_key
back = refl

serve_http_pass_history_example :
    (endpoint setup visit ≡ site)
    × ((any (λ method. text_eq method visit.method) setup.config.protect_http_methods ≡ false)
        ⊎ Solved memory_cache escape setup history start
            (verification_key setup visit (get_client_ip setup.config setup.exempt_ips visit))
            (now + day)
        ⊎ (is_ip_excluded (get_client_ip setup.config setup.exempt_ips visit) setup.exempt_ips
            ≡ true)
        ⊎ ((is_good_bot memory_cache no_bot setup
              (now + day)
              after
              visit
              (get_client_ip setup.config setup.exempt_ips visit)).0
            ≡ true)
        ⊎ (is_good_user_agent setup.config (user_agent visit) ≡ true)
        ⊎ (route_is_protected setup visit.url_path ≡ false))
serve_http_pass_history_example =
    serve_http_pass_history memory_cache-IsLawful escape setup history start coming_back day refl
      (omega arith) (((λ s. refl), (omega arith, omega arith)), tt) (omega arith) back
