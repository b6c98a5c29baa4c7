-- ===== src/Cache/Expiry.antt =====
-- How long an entry can be read.
use captcha_protect.Base.{ℕ, ◌+◌, ◌≤◌, ◌<◌, ◌≡◌, Bool, none, some, Text, IsNonneg, arith}
use captcha_protect.Cache.{Cache, IsLawful, default_expiration, expiration_of, live_object}

live_for :
    (default now d later : ℕ) (v : Bool)
    → 0 < d
    → IsNonneg (now + d)
    → later ≤ now + d
    → live_object (record { object = v; expiration = expiration_of default now d }) later ≡ some v
live_for default now d later v positive fits soon = ground arith

live_default :
    (default now later : ℕ) (v : Bool)
    → 0 < default
    → IsNonneg (now + default)
    → later ≤ now + default
    → live_object
        (record { object = v; expiration = expiration_of default now default_expiration })
        later
      ≡ some v
live_default default now later v positive fits soon = ground arith

expired_after :
    (default now d later : ℕ) (v : Bool)
    → 0 < d
    → IsNonneg (now + d)
    → IsNonneg later
    → now + d < later
    → live_object (record { object = v; expiration = expiration_of default now d }) later ≡ none
expired_after default now d later v positive fits fits' late = ground arith

expired_default :
    (default now later : ℕ) (v : Bool)
    → 0 < default
    → IsNonneg (now + default)
    → IsNonneg later
    → now + default < later
    → live_object
        (record { object = v; expiration = expiration_of default now default_expiration })
        later
      ≡ none
expired_default default now later v positive fits fits' late = ground arith

module _ {C : Cache} (L : IsLawful C) (s : C.State) (now later : ℕ) (k : Text) (v : Bool) where
  -- An entry set for a positive duration can be read until that time has passed.
  pub get-set_for :
      (d : ℕ)
      → 0 < d
      → IsNonneg (now + d)
      → later ≤ now + d
      → C.get (C.set s now k v d) later k ≡ some v
  get-set_for d positive fits soon =
      rw L.get-set_self (live_for (C.default s) now d later v positive fits soon)

  pub get-set_default :
      0 < C.default s
      → IsNonneg (now + C.default s)
      → later ≤ now + C.default s
      → C.get (C.set s now k v default_expiration) later k ≡ some v
  get-set_default positive fits soon =
      rw L.get-set_self (live_default (C.default s) now later v positive fits soon)

  pub get-set_expired :
      0 < C.default s
      → IsNonneg (now + C.default s)
      → IsNonneg later
      → now + C.default s < later
      → C.get (C.set s now k v default_expiration) later k ≡ none
  get-set_expired positive fits fits' late =
      rw L.get-set_self (expired_default (C.default s) now later v positive fits fits' late)

  pub get-set_for_expired :
      (d : ℕ)
      → 0 < d
      → IsNonneg (now + d)
      → IsNonneg later
      → now + d < later
      → C.get (C.set s now k v d) later k ≡ none
  get-set_for_expired d positive fits fits' late =
      rw L.get-set_self (expired_after (C.default s) now d later v positive fits fits' late)
