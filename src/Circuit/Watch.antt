-- ===== src/Circuit/Watch.antt =====
-- `healthCheckLoop` of main.go.
use captcha_protect.Base.{◌≡◌, refl, List, [], ◌∷◌, ◌++◌, map, Text}
use captcha_protect.Config.{Config}
use captcha_protect.Circuit.{CaptchaConfig, Breaker, Probe, perform_health_check, health_check_url}
use captcha_protect.Circuit.Trips.{Event, apply_events}
use captcha_protect.Circuit.Trips

-- What wakes the loop: the ticker, with the client of that time, or the end of the context.
pub data Wakeup : Type 0 where
  tick : (Text → Probe) → Wakeup
  done : Wakeup

unfoldable pub health_check_loop : Config → CaptchaConfig → List Wakeup → Breaker → Breaker
health_check_loop c captcha [] b = b
health_check_loop c captcha (tick head ∷ wakeups) b =
    health_check_loop c captcha wakeups (perform_health_check c captcha head b)
health_check_loop c captcha (done ∷ wakeups) b = b

-- The loop is the health checks up to the end of the context.
pub health_check_loop-apply_events :
    (c : Config) (captcha : CaptchaConfig) (clients : List (Text → Probe)) (wakeups : List Wakeup)
    (b : Breaker)
    → health_check_loop c captcha (map tick clients ++ (done ∷ wakeups)) b
      ≡ apply_events c captcha
          (map (λ head. Trips.tick (head (health_check_url captcha))) clients)
          b
unfolding health_check_loop apply_events captcha_protect.Circuit.Trips.apply_event
    perform_health_check
health_check_loop-apply_events c captcha [] wakeups b = refl
health_check_loop-apply_events c captcha (head ∷ clients) wakeups b =
    health_check_loop-apply_events c captcha clients wakeups _
