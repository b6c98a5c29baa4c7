-- ===== src/Encoding/Runes.antt =====
-- The bytes of a rune, and what is written for it.
use captcha_protect.Base.{
  le_or_lt, inl, inr, ℕ, zero, suc, ◌<◌, ◌≤◌, ◌≡◌, Bool, true, false, [], ◌∷◌, ◌++◌, some, none,
  Text, codes, arith,
}
use captcha_protect.Encoding.{
  trailing, tail_of, second_low, second_high, rune_tail, escape_ascii, separator, encode_loop,
}

-- The first bytes of a text, in that number, are there and are no ASCII.
abbrev pub AreHigh : ℕ → Text → Type 0
AreHigh zero t = Unit
AreHigh (suc n) [] = ⊥
AreHigh (suc n) (c ∷ t) = (0x80 ≤ c) × AreHigh n t

trailing-AreHigh : (n : ℕ) (t : Text) → trailing n t ≡ true → AreHigh n t
unfolding trailing
trailing-AreHigh zero t h = tt
trailing-AreHigh (suc n) [] h = cc
trailing-AreHigh (suc n) (c ∷ t) h = (ground arith, trailing-AreHigh n t (ground arith))

tail_of-AreHigh :
    (k low high n : ℕ) (t : Text) → 0x80 ≤ low → tail_of k low high t ≡ some n → AreHigh n t
unfolding tail_of
tail_of-AreHigh k low high n [] bound tail = cc
tail_of-AreHigh k low high n (d ∷ t) bound tail =
    let number : suc k ≡ n = ground arith in
    rw (← number) (ground arith, trailing-AreHigh k t (ground arith))

rune_tail_high : (c n : ℕ) (t : Text) → 0x80 ≤ c → rune_tail c t ≡ some n → AreHigh n t
unfolding rune_tail
rune_tail_high c n t high tail =
    let low : 0x80 ≤ second_low c = ground arith in
    let two = tail_of-AreHigh 0 0x80 0xbf n t (omega arith) in
    let three = tail_of-AreHigh 1 (second_low c) (second_high c) n t low in
    let four = tail_of-AreHigh 2 (second_low c) (second_high c) n t low in grind arith

pub rune_tail-AreHigh : (c n : ℕ) (t : Text) → rune_tail c t ≡ some n → AreHigh n t
rune_tail-AreHigh c n t tail = elim (le_or_lt 0x80 c) [
  | inl high ↦ rune_tail_high c n t high tail
  | inr small ↦ let none_left : 0 ≡ n = (unfold rune_tail in ground arith) in rw (← none_left) tt
]

pub encode_ascii :
    (copied : Bool) (c k : ℕ) (t : Text)
    → rune_tail c t ≡ some k
    → c < 0x80
    → encode_loop copied 0 (c ∷ t) ≡ escape_ascii c ++ encode_loop true k t
unfolding encode_loop
encode_ascii copied c k t tail small = ground arith

pub encode_high :
    (copied : Bool) (c k : ℕ) (t : Text)
    → rune_tail c t ≡ some k
    → 0x80 ≤ c
    → separator c t ≡ none
    → encode_loop copied 0 (c ∷ t) ≡ c ∷ encode_loop true k t
unfolding encode_loop
encode_high copied c k t tail high unlike = ground arith

pub encode_separator :
    (copied : Bool) (c k digit : ℕ) (t : Text)
    → rune_tail c t ≡ some k
    → 0x80 ≤ c
    → separator c t ≡ some digit
    → encode_loop copied 0 (c ∷ t) ≡ codes "\\u202" ++ (digit ∷ encode_loop false k t)
unfolding encode_loop
encode_separator copied c k digit t tail high is = ground arith

pub encode_invalid :
    (copied : Bool) (c : ℕ) (t : Text)
    → rune_tail c t ≡ none
    → encode_loop copied 0 (c ∷ t) ≡ codes "\\ufffd" ++ encode_loop true 0 t
unfolding encode_loop
encode_invalid copied c t invalid = ground arith
