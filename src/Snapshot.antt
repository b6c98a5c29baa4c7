-- ===== src/Snapshot.antt =====
-- The state that is shown on the statistics page: `GetState` and `getCacheEntries` of
-- internal/state/state.go. The sizes are those of `reflect` on a 64-bit machine.
use captcha_protect.Base.{ℕ, Bool, List, [], ◌∷◌, Text, length, add64}
use captcha_protect.Cache.{Item}

-- `CacheEntry`
pub record CacheEntry : Type 0 where
  pub value : Bool
  pub expiration : ℕ  -- int64

-- `State`; `memory` is the entry of the map `Memory` under `verified`.
pub record Snapshot : Type 0 where
  pub verified : List (Text × CacheEntry)
  pub memory : ℕ  -- uintptr

abbrev pub map_size : ℕ
map_size = 8

abbrev pub string_size : ℕ
string_size = 16

abbrev pub item_size : ℕ
item_size = 24

-- The loop over the items, from the memory counted so far.
unfoldable pub get_cache_entries : List (Text × Item) → ℕ → List (Text × CacheEntry) × ℕ
get_cache_entries [] memory = ([], memory)
get_cache_entries ((k, v) ∷ items) memory =
    let (entries, total) =
      get_cache_entries items (add64 (add64 (add64 memory string_size) item_size) (length k)) in
    ((k, record { value = v.object; expiration = v.expiration }) ∷ entries, total)

unfoldable pub get_state : List (Text × Item) → Snapshot
unfolding get_cache_entries
get_state items =
    let (entries, memory) = get_cache_entries items map_size in
    record { verified = entries; memory = memory }
