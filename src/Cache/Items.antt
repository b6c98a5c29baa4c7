-- ===== src/Cache/Items.antt =====
-- What a copy of the items says of what can be read.
use captcha_protect.Base.{
  ℕ, ◌≤◌, ◌≡◌, ◌≢◌, ◌∙◌, refl, sym, inl, inr, List, [], ◌∷◌, none, Text, text_eq_refl, no_text_eq,
  All, AllPairs, All-map, IsNonneg, i64_half, le_or_lt, arith,
}
use captcha_protect.Cache.{Cache, IsLawful, Item, live_object, find_item}

-- Two properties of the elements of a list at once.
All-both {ℓ κ} :
    {A : Type ℓ} (P Q : A → Type κ) (xs : List A) → All P xs → All Q xs → All (λ x. P x × Q x) xs
All-both P Q [] h k = tt
All-both P Q (x ∷ xs) (h, hs) (k, ks) = ((h, k), All-both P Q xs hs ks)

find_item_skip :
    (j : Text) (item : Item) (items : List (Text × Item)) (later : ℕ) (k : Text)
    → j ≢ k
    → find_item ((j, item) ∷ items) later k ≡ find_item items later k
unfolding find_item
find_item_skip j item items later k apart = rw (no_text_eq j k apart) refl

find_item_each :
    (items : List (Text × Item)) (later : ℕ)
    → AllPairs (λ a b. a.0 ≢ b.0) items
    → All (λ e. find_item items later e.0 ≡ live_object e.1 later) items
find_item_each [] later distinct = tt
find_item_each ((j, item) ∷ items) later (apart, distinct) = (
  (unfold find_item in rw (text_eq_refl j) refl),
  All-map _ _ items (λ e (other, found). find_item_skip j item items later e.0 other ∙ found)
      (All-both _ _ items apart (find_item_each items later distinct)),
)

module _ {C : Cache} (L : IsLawful C) (s : C.State) (now : ℕ) where
  get-items_each :
      (later : ℕ)
      → now ≤ later
      → IsNonneg later
      → All (λ e. C.get s later e.0 ≡ live_object e.1 later) (C.items s now)
  get-items_each later order fits =
      All-map _ _ (C.items s now) (λ e found. sym (L.get-items s now later e.0 order fits) ∙ found)
        (find_item_each (C.items s now) later (L.keys-items s now))

  -- What is known of a key that can be read holds of every key in a copy of the items.
  pub items-known :
      (Q : Text → Type 0)
      → IsNonneg now
      → ((k : Text) → C.get s now k ≢ none → Q k)
      → All (λ e. Q e.0) (C.items s now)
  items-known Q fits known =
      All-map _ _ (C.items s now) (λ e (live, found). known e.0 (ground arith))
        (All-both _ _ (C.items s now) (L.live-items s now) (get-items_each now (omega arith) fits))

  -- If nothing can be read at some time, every item expires.
  pub items-IsNonneg :
      (later : ℕ)
      → now ≤ later
      → IsNonneg later
      → ((k : Text) → C.get s later k ≡ none)
      → All (λ e. IsNonneg e.1.expiration) (C.items s now)
  items-IsNonneg later order fits gone =
      All-map _ _ (C.items s now)
        (λ e (word, found). elim (le_or_lt i64_half e.1.expiration) [
          | inr small ↦ small
          | inl large ↦ let nothing = gone e.0 in absurd (grind arith)
        ])
        (All-both _ _ (C.items s now) (L.word-items s now) (get-items_each later order fits))
