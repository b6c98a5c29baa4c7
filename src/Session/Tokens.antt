-- ===== src/Session/Tokens.antt =====
-- The shape of a token, and how much of the randomness it keeps.
use Prim.Native.Nat.{bit_and, bit_or}
use captcha_protect.Base.{
  hex_char, ◌++◌, length, take, drop, length-drop, take-append-drop, ℕ, zero, suc, ◌+◌, ◌-◌, ◌/◌,
  ◌%◌, ◌<◌, ◌≡◌, refl, ◌∙◌, sym, ap, Bool, true, false, List, [], ◌∷◌, some, Text, All, arith, ◌==◌,
  if◌then◌else◌,
}
use captcha_protect.Session.{random_uuid, hex_byte, hex_bytes}

-- Two functions have the same values at the numbers under a bound.
agree : (ℕ → ℕ) → (ℕ → ℕ) → ℕ → Bool
agree f g zero = true
agree f g (suc bound) = if f bound == g bound then agree f g bound else false

agree_at :
    (f g : ℕ → ℕ) (bound value : ℕ) → agree f g bound ≡ true → value < bound → f value ≡ g value
unfolding agree
agree_at f g zero value same inside = absurd (omega arith)
agree_at f g (suc bound) value same inside = ground (arith, agree_at f g bound value)

-- The byte with the version, and the one with the variant, in numbers.
with_version : agree (λ b. bit_or (bit_and b 0x0f) 0x40) (λ b. 64 + b % 16) 256 ≡ true
unfolding agree
with_version = refl

with_variant : agree (λ b. bit_or (bit_and b 0x3f) 0x80) (λ b. 128 + b % 64) 256 ≡ true
unfolding agree
with_variant = refl

version_lem : (b : ℕ) → b < 256 → bit_or (bit_and b 0x0f) 0x40 ≡ 64 + b % 16
version_lem b h =
    agree_at (λ b. bit_or (bit_and b 0x0f) 0x40) (λ b. 64 + b % 16) 256 b with_version h

variant_lem : (b : ℕ) → b < 256 → bit_or (bit_and b 0x3f) 0x80 ≡ 128 + b % 64
variant_lem b h =
    agree_at (λ b. bit_or (bit_and b 0x3f) 0x80) (λ b. 128 + b % 64) 256 b with_variant h

-- The digits of a byte determine it.
hex_char_inj : (d e : ℕ) → d < 16 → e < 16 → hex_char d ≡ hex_char e → d ≡ e
unfolding hex_char
hex_char_inj d e h h' same = ground arith

hex_byte_inj :
    (a b : ℕ) (s t : Text)
    → a < 256
    → b < 256
    → hex_byte a ++ s ≡ hex_byte b ++ t
    → (a ≡ b) × (s ≡ t)
unfolding hex_byte
hex_byte_inj a b s t h h' same =
    let e = hex_char_inj (a / 16) (b / 16) (omega arith) (omega arith) (cc same) in
    let e' = hex_char_inj (a % 16) (b % 16) (omega arith) (omega arith) (cc same) in
    (omega arith, cc same)

abbrev pub AreBytes : List ℕ → Type 0
AreBytes = All (λ b. b < 256)

-- So do the digits of as many bytes as both lists have.
hex_bytes_inj :
    (n : ℕ) (xs ys : List ℕ) (s t : Text)
    → AreBytes xs
    → AreBytes ys
    → length xs ≡ length ys
    → hex_bytes (take n xs) ++ s ≡ hex_bytes (take n ys) ++ t
    → (take n xs ≡ take n ys) × (s ≡ t)
unfolding hex_bytes
hex_bytes_inj zero xs ys s t small small' long same = (refl, same)
hex_bytes_inj (suc n) [] [] s t small small' long same = (refl, same)
hex_bytes_inj (suc n) [] (y ∷ ys) s t small small' long same = absurd (omega arith)
hex_bytes_inj (suc n) (x ∷ xs) [] s t small small' long same = absurd (omega arith)
hex_bytes_inj (suc n) (x ∷ xs) (y ∷ ys) s t (h, small) (h', small') long same =
    let (e, same') = hex_byte_inj x y _ _ h h' same in
    let (es, rest) = hex_bytes_inj n xs ys s t small small' (omega arith) same' in
    (cc (e, es), rest)

-- Bytes in groups of the given sizes, with a dash behind each but the last.
unfoldable pub dashed : List ℕ → List ℕ → Text
dashed [] xs = hex_bytes xs
dashed (n ∷ sizes) xs = hex_bytes (take n xs) ++ (b'-' ∷ dashed sizes (drop n xs))

take-length : (xs : List ℕ) → take (length xs) xs ≡ xs
take-length [] = refl
take-length (x ∷ xs) = ap (λ l. x ∷ l) (take-length xs)

pub AreBytes-drop : (n : ℕ) (xs : List ℕ) → AreBytes xs → AreBytes (drop n xs)
AreBytes-drop zero xs small = small
AreBytes-drop (suc n) [] small = tt
AreBytes-drop (suc n) (x ∷ xs) (h, small) = AreBytes-drop n xs small

dashed_inj :
    (sizes xs ys : List ℕ)
    → AreBytes xs
    → AreBytes ys
    → length xs ≡ length ys
    → dashed sizes xs ≡ dashed sizes ys
    → xs ≡ ys
unfolding dashed
dashed_inj [] xs ys small small' long same =
    let (e, _) =
      hex_bytes_inj (length xs) xs ys [] [] small small' long
        (rw (take-length xs, long, take-length ys) (ap (λ t. t ++ []) same)) in
    sym (take-length xs) ∙ e ∙ rw long (take-length ys)
dashed_inj (n ∷ sizes) xs ys small small' long same =
    let (e, rest) = hex_bytes_inj n xs ys _ _ small small' long same in
    let long' : length (drop n xs) ≡ length (drop n ys) =
      omega (arith, length-drop n xs, length-drop n ys) in
    let e' =
      dashed_inj sizes (drop n xs) (drop n ys) (AreBytes-drop n xs small)
        (AreBytes-drop n ys small') long' (cc rest) in
    sym (take-append-drop n xs) ∙ rw (e, e') (take-append-drop n ys)

-- The bytes with the version and the variant set.
pub stamped : List ℕ → List ℕ
stamped (b0 ∷ b1 ∷ b2 ∷ b3 ∷ b4 ∷ b5 ∷ b6 ∷ b7 ∷ b8 ∷ bytes) =
    b0 ∷ b1 ∷ b2 ∷ b3 ∷ b4 ∷ b5 ∷ (64 + b6 % 16) ∷ b7 ∷ (128 + b8 % 64) ∷ bytes
stamped bytes = bytes

-- What a token keeps of the random bytes: all but four bits of the seventh and two of the ninth.
unfoldable pub kept : List ℕ → List ℕ
kept (b0 ∷ b1 ∷ b2 ∷ b3 ∷ b4 ∷ b5 ∷ b6 ∷ b7 ∷ b8 ∷ bytes) =
    b0 ∷ b1 ∷ b2 ∷ b3 ∷ b4 ∷ b5 ∷ (b6 % 16) ∷ b7 ∷ (b8 % 64) ∷ bytes
kept bytes = bytes

-- The sizes of all groups of a token but the last.
abbrev pub groups : List ℕ
groups = 4 ∷ 2 ∷ 2 ∷ 2 ∷ []

-- A token is the digits of the stamped bytes.
pub random_uuid-stamped :
    (bytes : List ℕ) {token : Text}
    → AreBytes bytes
    → random_uuid (some bytes) ≡ some token
    → (length (stamped bytes) ≡ 16)
      × AreBytes (stamped bytes)
      × (dashed groups (stamped bytes) ≡ token)
unfolding random_uuid stamped dashed hex_bytes
random_uuid-stamped
      (b0 ∷ b1 ∷ b2 ∷ b3 ∷ b4 ∷ b5 ∷ b6 ∷ b7 ∷ b8 ∷ b9 ∷ b10 ∷ b11 ∷ b12 ∷ b13 ∷ b14 ∷ b15 ∷ [])
      (s0, (s1, (s2, (s3, (s4, (s5, (s6, (s7, (s8, last))))))))) drawn =
    (
      refl,
      (s0, (s1, (s2, (s3, (s4, (s5, (omega arith, (s7, (omega arith, last))))))))),
      rw (← version_lem b6 s6, ← variant_lem b8 s8) (cc drawn),
    )
random_uuid-stamped _ small drawn = cc

unstamped : List ℕ → List ℕ
unstamped (b0 ∷ b1 ∷ b2 ∷ b3 ∷ b4 ∷ b5 ∷ b6 ∷ b7 ∷ b8 ∷ bytes) =
    b0 ∷ b1 ∷ b2 ∷ b3 ∷ b4 ∷ b5 ∷ (b6 - 64) ∷ b7 ∷ (b8 - 128) ∷ bytes
unstamped bytes = bytes

unstamped-stamped : (bytes : List ℕ) → unstamped (stamped bytes) ≡ kept bytes
unfolding unstamped stamped kept
unstamped-stamped (b0 ∷ b1 ∷ b2 ∷ b3 ∷ b4 ∷ b5 ∷ b6 ∷ b7 ∷ b8 ∷ bytes) =
    let e : 64 + b6 % 16 - 64 ≡ b6 % 16 = omega arith in
    let e' : 128 + b8 % 64 - 128 ≡ b8 % 64 = omega arith in rw (e, e') refl
unstamped-stamped _ = refl

-- Equal tokens are drawn only with the same randomness, but for the six bits that a token does not
-- keep.
pub random_uuid-inj :
    (bytes bytes' : List ℕ) {token : Text}
    → All (λ b. b < 256) bytes
    → All (λ b. b < 256) bytes'
    → random_uuid (some bytes) ≡ some token
    → random_uuid (some bytes') ≡ some token
    → kept bytes ≡ kept bytes'
random_uuid-inj bytes bytes' small small' drawn drawn' =
    let (long, are_bytes, same) = random_uuid-stamped bytes small drawn in
    let (long', are_bytes', same') = random_uuid-stamped bytes' small' drawn' in
    let stamps =
      dashed_inj groups (stamped bytes) (stamped bytes') are_bytes are_bytes' (long ∙ sym long')
        (same ∙ sym same') in
    sym (unstamped-stamped bytes) ∙ ap unstamped stamps ∙ unstamped-stamped bytes'
