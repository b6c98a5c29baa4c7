-- ===== src/Access/Challenged.antt =====
-- Exactly which requests are challenged, and what `shouldApply` changes.
use captcha_protect.Base.{
  ◌≢◌, ◌⊎◌, inl, inr, Bool-cases, Option-cases, ℕ, ◌≡◌, ◌↔◌, Bool, true, false, any, none, Text,
  text_eq, arith,
}
use captcha_protect.Base.{List}
use captcha_protect.Request.{Request, user_agent}
use captcha_protect.Cache.{Cache}
use captcha_protect.ClientIp.{is_ip_excluded}
use captcha_protect.Routes.{is_good_user_agent}
use captcha_protect.Middleware.{Setup, State}
use captcha_protect.Access.{verification_key, route_is_protected, is_good_bot, should_apply}

module _ (C : Cache) (lookup : Text → List Text → Bool) (setup : Setup) (now : ℕ) where
  -- A request is challenged exactly when its method is protected, its visitor is not verified, its
  -- address is not exempt and no good bot's, its user agent is not exempt, and its path is
  -- protected in the configured mode.
  pub should_apply_iff :
      (st : State C) (req : Request) (client_ip : Text)
      → ((should_apply C lookup setup now st req client_ip).0 ≡ true) ↔ (
          (any (λ method. text_eq method req.method) setup.config.protect_http_methods ≡ true)
          × (C.get st.verified_cache now (verification_key setup req client_ip) ≡ none)
          × (is_ip_excluded client_ip setup.exempt_ips ≡ false)
          × ((is_good_bot C lookup setup now st req client_ip).0 ≡ false)
          × (is_good_user_agent setup.config (user_agent req) ≡ false)
          × (route_is_protected setup req.url_path ≡ true))
  unfolding should_apply
  should_apply_iff st req client_ip = (
    λ h. (ground arith, ground arith, ground arith, ground arith, ground arith, ground arith),
    λ h. ground arith,
  )

  is_good_bot_state :
      (st : State C) (req : Request) (client_ip : Text)
      → let st' = (is_good_bot C lookup setup now st req client_ip).1 in
        st' ≡ record st { bot_cache = st'.bot_cache }
  unfolding is_good_bot
  is_good_bot_state st req client_ip = ground arith

  -- Asking changes nothing but the cache of bots.
  pub should_apply_state :
      (st : State C) (req : Request) (client_ip : Text)
      → let st' = (should_apply C lookup setup now st req client_ip).1 in
        st' ≡ record st { bot_cache = st'.bot_cache }
  unfolding should_apply
  should_apply_state st req client_ip = ground (arith, is_good_bot_state st req client_ip)

-- Why a request need not be challenged.
pub should_apply_free :
    (C : Cache) (lookup : Text → List Text → Bool) (setup : Setup) (now : ℕ) (st : State C)
    (req : Request) (ip : Text)
    → (should_apply C lookup setup now st req ip).0 ≡ false
    → (any (λ method. text_eq method req.method) setup.config.protect_http_methods ≡ false)
      ⊎ (C.get st.verified_cache now (verification_key setup req ip) ≢ none)
      ⊎ (is_ip_excluded ip setup.exempt_ips ≡ true)
      ⊎ ((is_good_bot C lookup setup now st req ip).0 ≡ true)
      ⊎ (is_good_user_agent setup.config (user_agent req) ≡ true)
      ⊎ (route_is_protected setup req.url_path ≡ false)
unfolding should_apply
should_apply_free C lookup setup now st req ip free =
    elim (Bool-cases
      (any (λ method. text_eq method req.method) setup.config.protect_http_methods)) [
        | inr h ↦ inl h
        | inl m ↦
            elim (Option-cases (C.get st.verified_cache now (verification_key setup req ip))) [
              | inr (b, found) ↦ inr (inl (λ gone. cc))
              | inl gone ↦ elim (Bool-cases (is_ip_excluded ip setup.exempt_ips)) [
                | inl h ↦ inr (inr (inl h))
                | inr e ↦ elim (Bool-cases (is_good_bot C lookup setup now st req ip).0) [
                  | inl h ↦ inr (inr (inr (inl h)))
                  | inr b ↦ elim (Bool-cases (is_good_user_agent setup.config (user_agent req))) [
                    | inl h ↦ inr (inr (inr (inr (inl h))))
                    | inr u ↦ inr (inr (inr (inr (inr (ground arith)))))
                  ]
                ]
              ]
            ]
      ]
