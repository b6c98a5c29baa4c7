-- ===== src/Encoding/Harmless.antt =====
-- What is written for a text has no control character and no character that means something in HTML.
use captcha_protect.Base.{
  ℕ, zero, suc, ◌/◌, ◌%◌, ◌<◌, ◌≤◌, ◌≡◌, ◌≢◌, inl, inr, Bool, true, false, [], ◌∷◌, some, Text,
  codes, arith, All, All-append, hex_char, le_or_lt, Option-cases,
}
use captcha_protect.Encoding.{rune_tail, separator, escape_ascii, encode_loop, marshal_string}
use captcha_protect.Encoding.Runes.{
  AreHigh, rune_tail-AreHigh, encode_ascii, encode_high, encode_separator, encode_invalid,
}

abbrev pub IsHarmless : ℕ → Type 0
IsHarmless c = (0x20 ≤ c) × (c ≢ b'<') × (c ≢ b'>') × (c ≢ b'&')

hex_char-IsHarmless : (d : ℕ) → d < 16 → IsHarmless (hex_char d)
unfolding hex_char
hex_char-IsHarmless d small = ground arith

escape_ascii-IsHarmless : (c : ℕ) → c < 0x80 → All IsHarmless (escape_ascii c)
unfolding escape_ascii
escape_ascii-IsHarmless c small =
    let first = hex_char-IsHarmless (c / 16) (omega arith) in
    let last = hex_char-IsHarmless (c % 16) (omega arith) in ground (arith, first, last)

separator-IsHarmless : (c digit : ℕ) (t : Text) → separator c t ≡ some digit → IsHarmless digit
unfolding separator
separator-IsHarmless c digit (d ∷ e ∷ t) is = ground arith
separator-IsHarmless c digit _ is = cc

high-IsHarmless : (c : ℕ) → 0x80 ≤ c → IsHarmless c
high-IsHarmless c high = (omega arith, omega arith, omega arith, omega arith)

-- A rune, when the rest is harmless.
rune-IsHarmless :
    (copied : Bool) (c : ℕ) (t : Text)
    → ((copied' : Bool) (k : ℕ) → AreHigh k t → All IsHarmless (encode_loop copied' k t))
    → All IsHarmless (encode_loop copied 0 (c ∷ t))
rune-IsHarmless copied c t later = elim (Option-cases (rune_tail c t)) [
  | inl invalid ↦
      rw (encode_invalid copied c t invalid)
        (All-append IsHarmless (codes "\\ufffd") _ (ground arith) (later true 0 tt))
  | inr (k, tail) ↦
      let highs = rune_tail-AreHigh c k t tail in
      elim (le_or_lt 0x80 c) [
        | inr small ↦ rw (encode_ascii copied c k t tail small) (
            All-append IsHarmless (escape_ascii c) _ (escape_ascii-IsHarmless c small)
              (later true k highs))
        | inl high ↦ elim (Option-cases (separator c t)) [
          | inl unlike ↦
              rw (encode_high copied c k t tail high unlike)
                (high-IsHarmless c high, later true k highs)
          | inr (digit, is) ↦ rw (encode_separator copied c k digit t tail high is) (
              All-append IsHarmless (codes "\\u202") (digit ∷ encode_loop false k t) (ground arith)
                (separator-IsHarmless c digit t is, later false k highs))
        ]
      ]
]

encode_loop-IsHarmless :
    (copied : Bool) (n : ℕ) (t : Text) → AreHigh n t → All IsHarmless (encode_loop copied n t)
unfolding encode_loop
encode_loop-IsHarmless copied n [] high = tt
encode_loop-IsHarmless true (suc n) (c ∷ t) (high, highs) =
    (high-IsHarmless c high, encode_loop-IsHarmless true n t highs)
encode_loop-IsHarmless false (suc n) (c ∷ t) (high, highs) = encode_loop-IsHarmless false n t highs
encode_loop-IsHarmless copied zero (c ∷ t) high =
    rune-IsHarmless copied c t (λ copied' k. encode_loop-IsHarmless copied' k t)

pub marshal_string-IsHarmless : (s : Text) → All IsHarmless (marshal_string s)
unfolding marshal_string
marshal_string-IsHarmless s = (
  ground arith,
  All-append IsHarmless (encode_loop true 0 s) (b'"' ∷ []) (encode_loop-IsHarmless true 0 s tt)
      (ground arith),
)
