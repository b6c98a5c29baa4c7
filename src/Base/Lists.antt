-- ===== src/Base/Lists.antt =====
-- Lists measured by native numbers, under the library's names, and Boolean searches through them
-- with what they mean.
use Prim.Native.Nat.{ℕ, zero, suc, ◌+◌, ◌-◌}
use mathlib.Core.Path.{◌≡◌, refl, ap, sym, subst}
use mathlib.Core.Logic.{◌↔◌, ◌⊎◌, inl, inr}
use mathlib.Core.Bool.{Bool, true, false, ◌||◌}
use mathlib.Core.List.{List, [], ◌∷◌, ◌++◌, reverse, reverse-cons}
use native.Mathlib.Omega.{arith}
use captcha_protect.Base.Tests.{if◌then◌else◌, Bool-cases}

module _ {ℓ} {A : Type ℓ} where
  abbrev pub length : List A → ℕ
  length [] = 0
  length (x ∷ xs) = suc (length xs)

  abbrev pub take : ℕ → List A → List A
  take zero xs = []
  take (suc n) [] = []
  take (suc n) (x ∷ xs) = x ∷ take n xs

  abbrev pub drop : ℕ → List A → List A
  drop zero xs = xs
  drop (suc n) [] = []
  drop (suc n) (x ∷ xs) = drop n xs

  pub length-append : (xs ys : List A) → length (xs ++ ys) ≡ length xs + length ys
  length-append [] ys = omega arith
  length-append (x ∷ xs) ys = omega (arith, length-append xs ys)

  pub length-drop : (n : ℕ) (xs : List A) → length (drop n xs) ≡ length xs - n
  length-drop zero xs = omega arith
  length-drop (suc n) [] = omega arith
  length-drop (suc n) (x ∷ xs) = omega (arith, length-drop n xs)

  pub take-append-drop : (n : ℕ) (xs : List A) → take n xs ++ drop n xs ≡ xs
  take-append-drop zero xs = refl
  take-append-drop (suc n) [] = refl
  take-append-drop (suc n) (x ∷ xs) = ap (λ l. x ∷ l) (take-append-drop n xs)

  pub drop-append : (xs ys : List A) → drop (length xs) (xs ++ ys) ≡ ys
  drop-append [] ys = refl
  drop-append (x ∷ xs) ys = drop-append xs ys

  -- Where an element stands in a list, and a property that all or some elements have.
  abbrev pub All {κ} : (A → Type κ) → List A → Type κ
  All P [] = Unit
  All P (x ∷ xs) = P x × All P xs

  abbrev pub Any : (A → Type 0) → List A → Type 0
  Any P [] = ⊥
  Any P (x ∷ xs) = P x ⊎ Any P xs

  pub All-append {κ} : (P : A → Type κ) (xs ys : List A) → All P xs → All P ys → All P (xs ++ ys)
  All-append P [] ys hx hy = hy
  All-append P (x ∷ xs) ys (h, hx) hy = (h, All-append P xs ys hx hy)

  pub All-reverse {κ} : (P : A → Type κ) (xs : List A) → All P xs → All P (reverse xs)
  All-reverse P [] h = h
  All-reverse P (x ∷ xs) (h, hs) =
      subst (All P) (sym (reverse-cons x xs))
        (All-append P (reverse xs) (x ∷ []) (All-reverse P xs hs) (h, tt))

  -- A loop that returns `true` at the first element that passes the test.
  unfoldable pub any : (A → Bool) → List A → Bool
  any p [] = false
  any p (x ∷ xs) = p x || any p xs

  pub any_iff : (p : A → Bool) (xs : List A) → (any p xs ≡ true) ↔ Any (λ x. p x ≡ true) xs
  unfolding any
  any_iff p [] = (λ h. ground arith, λ h. absurd h)
  any_iff p (x ∷ xs) = elim (Bool-cases (p x)) [
    | inl e ↦ (λ h. inl e, λ h. ground arith)
    | inr e ↦ (λ h. inr ((any_iff p xs).0 (ground arith)), λ h. ground (arith, (any_iff p xs).1))
  ]

  pub any_cons : (p : A → Bool) (x : A) (xs : List A) → any p (x ∷ xs) ≡ (p x || any p xs)
  unfolding any
  any_cons p x xs = refl

  pub any-append : (p : A → Bool) (xs ys : List A) → any p (xs ++ ys) ≡ (any p xs || any p ys)
  unfolding any
  any-append p [] ys = refl
  any-append p (x ∷ xs) ys = ground (arith, any-append p xs ys)

  unfoldable pub filter_by : (A → Bool) → List A → List A
  filter_by p [] = []
  filter_by p (x ∷ xs) = let rest = filter_by p xs in if p x then x ∷ rest else rest

  pub Any-map : (P Q : A → Type 0) (xs : List A) → ((x : A) → P x → Q x) → Any P xs → Any Q xs
  Any-map P Q [] f h = h
  Any-map P Q (x ∷ xs) f (inl h) = inl (f x h)
  Any-map P Q (x ∷ xs) f (inr h) = inr (Any-map P Q xs f h)

  pub any_iff_by :
      (p : A → Bool) (Q : A → Type 0) (xs : List A)
      → ((x : A) → (p x ≡ true) ↔ Q x)
      → (any p xs ≡ true) ↔ Any Q xs
  any_iff_by p Q xs f = (
    λ h. Any-map (λ x. p x ≡ true) Q xs (λ x. (f x).0) ((any_iff p xs).0 h),
    λ h. (any_iff p xs).1 (Any-map Q (λ x. p x ≡ true) xs (λ x. (f x).1) h),
  )

  pub filter_by-append :
      (p : A → Bool) (xs ys : List A) → filter_by p (xs ++ ys) ≡ filter_by p xs ++ filter_by p ys
  unfolding filter_by
  filter_by-append p [] ys = refl
  filter_by-append p (x ∷ xs) ys = ground (arith, filter_by-append p xs ys)

  -- A relation holds from each element to every later one.
  abbrev pub AllPairs {κ} : (A → A → Type κ) → List A → Type κ
  AllPairs R [] = Unit
  AllPairs R (x ∷ xs) = All (R x) xs × AllPairs R xs

  pub All-map {κ} : (P Q : A → Type κ) (xs : List A) → ((x : A) → P x → Q x) → All P xs → All Q xs
  All-map P Q [] f h = tt
  All-map P Q (x ∷ xs) f (h, hs) = (f x h, All-map P Q xs f hs)

  pub AllPairs-map {κ} :
      (R S : A → A → Type κ) (xs : List A)
      → ((x y : A) → R x y → S x y)
      → AllPairs R xs
      → AllPairs S xs
  AllPairs-map R S [] f h = tt
  AllPairs-map R S (x ∷ xs) f (h, hs) = (All-map (R x) (S x) xs (f x) h, AllPairs-map R S xs f hs)

  pub AllPairs-snoc {κ} :
      (R : A → A → Type κ) (xs : List A) (y : A)
      → AllPairs R xs
      → All (λ x. R x y) xs
      → AllPairs R (xs ++ (y ∷ []))
  AllPairs-snoc R [] y h k = (tt, tt)
  AllPairs-snoc R (x ∷ xs) y (h, hs) (k, ks) =
      (All-append (R x) xs (y ∷ []) h (k, tt), AllPairs-snoc R xs y hs ks)

  -- A search that fails has failed at every element.
  pub any-false : (p : A → Bool) (xs : List A) → any p xs ≡ false → All (λ x. p x ≡ false) xs
  unfolding any
  any-false p [] h = tt
  any-false p (x ∷ xs) h = (ground arith, any-false p xs (ground arith))

  pub any-none : (p : A → Bool) (xs : List A) → All (λ x. p x ≡ false) xs → any p xs ≡ false
  unfolding any
  any-none p [] h = refl
  any-none p (x ∷ xs) (h, hs) = ground (arith, any-none p xs hs)

  pub All-zip {κ} : (P Q : A → Type κ) (xs : List A) → All P xs → All Q xs → All (λ x. P x × Q x) xs
  All-zip P Q [] h k = tt
  All-zip P Q (x ∷ xs) (h, hs) (k, ks) = ((h, k), All-zip P Q xs hs ks)

  All-middle {κ} :
      (P : A → Type κ) (xs : List A) (y : A) (ys : List A) → All P (xs ++ (y ∷ ys)) → P y
  All-middle P [] y ys h = h.0
  All-middle P (x ∷ xs) y ys h = All-middle P xs y ys h.1

  pub AllPairs-middle {κ} :
      (R : A → A → Type κ) (xs : List A) (y : A) (ys : List A)
      → AllPairs R (xs ++ (y ∷ ys))
      → All (λ x. R x y) xs
  AllPairs-middle R [] y ys h = tt
  AllPairs-middle R (x ∷ xs) y ys (h, hs) =
      (All-middle (R x) xs y ys h, AllPairs-middle R xs y ys hs)
