-- ===== src/Cache/Memory.antt =====
-- The interface of the cache can be met: an association list.
use captcha_protect.Base.{
  ℕ, ◌≤◌, ◌≡◌, ◌≢◌, refl, List, [], ◌∷◌, Text, text_eq, text_eq_iff, text_eq_refl, if_both, sym,
  Bool-cases, inl, inr, All, AllPairs, IsNonneg,
}
use captcha_protect.Base.{◌<◌, ◌%◌, ◌∙◌, u64_mod, true, none, if◌then◌else◌, arith}
use captcha_protect.Cache.{Cache, IsLawful, Item, is_live, expiration_of, find_item}

pub record Table : Type 0 where
  pub default : ℕ
  pub entries : List (Text × Item)

unfoldable pub without : Text → List (Text × Item) → List (Text × Item)
without k [] = []
without k ((j, item) ∷ entries) =
    let rest = without k entries in if text_eq j k then rest else (j, item) ∷ rest

-- An item as it is stored, with its expiration as a 64-bit pattern.
abbrev pub stored : Item → Item
stored item = record item { expiration = item.expiration % u64_mod }

-- The first entry of each key, if it is live.
unfoldable pub live_items : List (Text × Item) → ℕ → List (Text × Item)
live_items [] now = []
live_items ((j, item) ∷ entries) now =
    let rest = without j (live_items entries now) in
    if is_live item now then (j, stored item) ∷ rest else rest

abbrev pub memory_cache : Cache
memory_cache = record {
  State = Table;
  empty = λ d. record { default = d; entries = [] };
  default = λ s. s.default;
  get = λ s now k. find_item s.entries now k;
  set = λ s now k v d. record s {
    entries = (k, record { object = v; expiration = expiration_of s.default now d }) ∷ s.entries;
  };
  items = λ s now. live_items s.entries now;
}

find_item-without :
    (j : Text) (entries : List (Text × Item)) (now : ℕ) (k : Text)
    → find_item (without j entries) now k ≡ (if text_eq j k then none else find_item entries now k)
unfolding find_item without
find_item-without j [] now k = ground arith
find_item-without j ((i, item) ∷ entries) now k =
    let rest = find_item-without j entries now k in
    ground (arith, rest, text_eq_iff i j, text_eq_iff i k, text_eq_iff j k)

live_stored : (item : Item) (now : ℕ) → is_live (stored item) now ≡ is_live item now
live_stored item now = ground arith

find_item-live :
    (entries : List (Text × Item)) (now later : ℕ) (k : Text)
    → now ≤ later
    → IsNonneg later
    → find_item (live_items entries now) later k ≡ find_item entries later k
unfolding find_item live_items
find_item-live [] now later k order fits = refl
find_item-live ((j, item) ∷ entries) now later k order fits =
    let rest = find_item-live entries now later k order fits in
    let others = find_item-without j (live_items entries now) later k in
    let same = live_stored item later in ground (arith, rest, others)

abbrev Distinct : List (Text × Item) → Type 0
Distinct = AllPairs (λ a b. a.0 ≢ b.0)

without-fresh : (j : Text) (entries : List (Text × Item)) → All (λ e. j ≢ e.0) (without j entries)
unfolding without
without-fresh j [] = tt
without-fresh j ((i, item) ∷ entries) =
    let rest = without-fresh j entries in
    elim (Bool-cases (text_eq i j)) [
      | inl e ↦ rw e rest
      | inr e ↦ rw e ((λ same. let both = (text_eq_iff i j).1 (sym same) in ground arith), rest)
    ]

without-All :
    (P : Text × Item → Type 0) (j : Text) (entries : List (Text × Item))
    → All P entries
    → All P (without j entries)
unfolding without
without-All P j [] h = tt
without-All P j ((i, item) ∷ entries) (h, hs) =
    if_both (All P) (text_eq i j) (without-All P j entries hs) (h, without-All P j entries hs)

without-Distinct :
    (j : Text) (entries : List (Text × Item)) → Distinct entries → Distinct (without j entries)
unfolding without
without-Distinct j [] h = tt
without-Distinct j ((i, item) ∷ entries) (h, hs) =
    if_both Distinct (text_eq i j) (without-Distinct j entries hs)
      (without-All _ j entries h, without-Distinct j entries hs)

live_items-Distinct : (entries : List (Text × Item)) (now : ℕ) → Distinct (live_items entries now)
unfolding live_items
live_items-Distinct [] now = tt
live_items-Distinct ((j, item) ∷ entries) now =
    let rest = without-Distinct j (live_items entries now) (live_items-Distinct entries now) in
    if_both Distinct (is_live item now) (without-fresh j (live_items entries now), rest) rest

live_items-word :
    (entries : List (Text × Item)) (now : ℕ)
    → All (λ e. e.1.expiration < u64_mod) (live_items entries now)
unfolding live_items
live_items-word [] now = tt
live_items-word ((j, item) ∷ entries) now =
    let rest = without-All _ j (live_items entries now) (live_items-word entries now) in
    if_both (All (λ e. e.1.expiration < u64_mod)) (is_live item now) (omega arith, rest) rest

live_items-live :
    (entries : List (Text × Item)) (now : ℕ)
    → All (λ e. is_live e.1 now ≡ true) (live_items entries now)
unfolding live_items
live_items-live [] now = tt
live_items-live ((j, item) ∷ entries) now =
    let rest = without-All _ j (live_items entries now) (live_items-live entries now) in
    elim (Bool-cases (is_live item now)) [
      | inl e ↦ rw e (live_stored item now ∙ e, rest)
      | inr e ↦ rw e rest
    ]

pub memory_cache-IsLawful : IsLawful memory_cache
unfolding find_item
memory_cache-IsLawful = record {
  get-empty = λ d now k. refl;
  default-empty = λ d. refl;
  default-set = λ s now k v d. refl;
  get-set_self = λ s now later k v d. rw text_eq_refl refl;
  get-set_other = λ s now later k j v d ne. ground (arith, text_eq_iff k j);
  keys-items = λ s now. live_items-Distinct s.entries now;
  live-items = λ s now. live_items-live s.entries now;
  word-items = λ s now. live_items-word s.entries now;
  get-items = λ s now later k order fits. find_item-live s.entries now later k order fits;
}
