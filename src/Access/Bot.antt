-- ===== src/Access/Bot.antt =====
-- The verdict on a bot is remembered.
use captcha_protect.Base.{ℕ, ◌+◌, ◌≤◌, ◌<◌, ◌≡◌, refl, Bool, none, some, List, Text, IsNonneg}
use captcha_protect.Request.{Request}
use captcha_protect.Cache.{Cache, IsLawful, default_expiration}
use captcha_protect.Cache.Expiry.{get-set_default}
use captcha_protect.Middleware.{Setup, State}
use captcha_protect.Access.{known_bot, is_good_bot}

module _ {C : Cache} (L : IsLawful C) (setup : Setup) (st : State C) (req : Request)
    (client_ip : Text) where
  known_bot_same :
      (cache : C.State)
      → known_bot setup (record st { bot_cache = cache }) req client_ip
        ≡ known_bot setup st req client_ip
  unfolding known_bot
  known_bot_same cache = refl

  is_good_bot_miss :
      (lookup : Text → List Text → Bool) (now : ℕ)
      → known_bot setup st req client_ip ≡ none
      → C.get st.bot_cache now client_ip ≡ none
      → let v = lookup client_ip setup.config.good_bots in
        is_good_bot C lookup setup now st req client_ip
        ≡ (v, record st { bot_cache = C.set st.bot_cache now client_ip v default_expiration })
  unfolding is_good_bot
  is_good_bot_miss lookup now unknown absent = rw (unknown, absent, is_good_bot) refl

  is_good_bot_hit :
      (lookup : Text → List Text → Bool) (now : ℕ) (cache : C.State) (v : Bool)
      → known_bot setup st req client_ip ≡ none
      → C.get cache now client_ip ≡ some v
      → is_good_bot C lookup setup now (record st { bot_cache = cache }) req client_ip
        ≡ (v, record st { bot_cache = cache })
  unfolding is_good_bot
  is_good_bot_hit lookup now cache v unknown found =
      rw (known_bot_same cache, unknown, found, is_good_bot) refl

  -- For a request that is no known bot's, from an address whose verdict is not cached, the verdict
  -- of the lookup is given again, without another lookup, until the default expiration of the
  -- cache of bots has passed. That expiration is positive, and the time it gives fits in 63 bits.
  pub is_good_bot_cached :
      (lookup other : Text → List Text → Bool) (now later : ℕ)
      → known_bot setup st req client_ip ≡ none
      → C.get st.bot_cache now client_ip ≡ none
      → 0 < C.default st.bot_cache
      → IsNonneg (now + C.default st.bot_cache)
      → later ≤ now + C.default st.bot_cache
      → let st' = (is_good_bot C lookup setup now st req client_ip).1 in
        is_good_bot C other setup later st' req client_ip
        ≡ (lookup client_ip setup.config.good_bots, st')
  is_good_bot_cached lookup other now later unknown absent positive fits soon =
      let v = lookup client_ip setup.config.good_bots in
      rw (is_good_bot_miss lookup now unknown absent) (
        is_good_bot_hit other later (C.set st.bot_cache now client_ip v default_expiration) v
          unknown (get-set_default L st.bot_cache now later client_ip v positive fits soon))
