-- ===== src/Cache.antt =====
-- The expiring map that the middleware takes from a third-party package (go-cache), as an
-- interface: the calls that the source makes, and what their documentation says of them. Keys are
-- texts, values are Booleans, times are nanoseconds and durations 64-bit patterns.
pub mod Memory
pub mod Expiry
pub mod Items
use captcha_protect.Base.{
  ℕ, ◌≡◌, ◌≢◌, ◌↔◌, Bool, true, false, not, ◌||◌, List, Text, Option, none, some,
}
use captcha_protect.Base.{
  if◌then◌else◌, ◌==◌, ◌<◌, u64_mod, add64, sle64, slt64, All, AllPairs, IsNonneg, ◌≤◌, [], ◌∷◌,
  text_eq,
}

-- `Item`: a value, and the time after which it has expired, if that is positive.
pub record Item : Type 0 where
  pub object : Bool
  pub expiration : ℕ  -- int64

-- `DefaultExpiration` and `NoExpiration` (-1).
abbrev pub default_expiration : ℕ
default_expiration = 0

abbrev pub no_expiration : ℕ
no_expiration = 0xffff_ffff_ffff_ffff

-- Whether an item can still be read at a time.
abbrev pub is_live : Item → ℕ → Bool
is_live item now = not (slt64 0 item.expiration) || sle64 now item.expiration

-- The expiration of an item that is set for a duration, where the cache was made with a default.
abbrev pub expiration_of : ℕ → ℕ → ℕ → ℕ
expiration_of default now d =
    let d' = if d == default_expiration then default else d in
    if slt64 0 d' then add64 now d' else 0

abbrev pub live_object : Item → ℕ → Option Bool
live_object item now = if is_live item now then some item.object else none

-- What a list of items says of a key.
unfoldable pub find_item : List (Text × Item) → ℕ → Text → Option Bool
find_item [] now k = none
find_item ((j, item) ∷ items) now k =
    let rest = find_item items now k in if text_eq j k then live_object item now else rest

pub record Cache : Type 1 where
  pub State : Type 0
  pub empty : ℕ → State  -- `New(defaultExpiration, cleanupInterval)`
  pub default : State → ℕ
  pub get : State → ℕ → Text → Option Bool
  pub set : State → ℕ → Text → Bool → ℕ → State
  pub items : State → ℕ → List (Text × Item)

pub record IsLawful (C : Cache) : Type 0 where
  pub get-empty : (d now : ℕ) (k : Text) → C.get (C.empty d) now k ≡ none
  pub default-empty : (d : ℕ) → C.default (C.empty d) ≡ d
  pub default-set :
      (s : C.State) (now : ℕ) (k : Text) (v : Bool) (d : ℕ)
      → C.default (C.set s now k v d) ≡ C.default s
  pub get-set_self :
      (s : C.State) (now later : ℕ) (k : Text) (v : Bool) (d : ℕ)
      → C.get (C.set s now k v d) later k
        ≡ live_object (record { object = v; expiration = expiration_of (C.default s) now d }) later
  pub get-set_other :
      (s : C.State) (now later : ℕ) (k j : Text) (v : Bool) (d : ℕ)
      → j ≢ k
      → C.get (C.set s now k v d) later j ≡ C.get s later j
  pub keys-items : (s : C.State) (now : ℕ) → AllPairs (λ a b. a.0 ≢ b.0) (C.items s now)
  pub live-items : (s : C.State) (now : ℕ) → All (λ e. is_live e.1 now ≡ true) (C.items s now)
  pub word-items : (s : C.State) (now : ℕ) → All (λ e. e.1.expiration < u64_mod) (C.items s now)
  pub get-items :
      (s : C.State) (now later : ℕ) (k : Text)
      → now ≤ later
      → IsNonneg later
      → find_item (C.items s now) later k ≡ C.get s later k
