-- ===== src/Encoding/Escapes.antt =====
-- What stands for a byte or a separator is read as it.
use captcha_protect.Base.{
  ℕ, ◌+◌, ◌-◌, ◌*◌, ◌/◌, ◌%◌, ◌<◌, ◌≡◌, ◌∙◌, refl, inl, inr, [], ◌∷◌, ◌++◌, reverse, some, Text,
  codes, arith, Bool-cases, hex_char, ltb,
}
use captcha_protect.Encoding.{escape_ascii, separator}
use captcha_protect.Persist.Reader.{
  ◌>>=◌, hex_value, encode_rune, simple_escape, read_body, plain, in_hex,
}

pub hex_value-hex_char : (d : ℕ) → d < 16 → hex_value (hex_char d) ≡ some d
unfolding hex_value hex_char
hex_value-hex_char d small = elim (Bool-cases (ltb d 10)) [
  | inl e ↦ (let e' : d + 48 - 48 ≡ d = omega arith in rw e (ground arith))
  | inr e ↦ (let e' : d + 87 - 87 ≡ d = omega arith in rw e (ground arith))
]

read_body_digit :
    (digits digits' v v' d : ℕ) (found t : Text)
    → d < 16
    → digits ≡ digits' + 1
    → 0 < digits'
    → v' ≡ v * 16 + d
    → read_body (in_hex digits v) found (hex_char d ∷ t) ≡ read_body (in_hex digits' v') found t
unfolding read_body
read_body_digit digits digits' v v' d found t small fewer more next =
    let value = hex_value-hex_char d small in
    let e : digits - 1 ≡ digits' = omega arith in rw next (rw (← e) (ground arith))

read_body_last_digit :
    (v d : ℕ) (found t : Text)
    → d < 16
    → read_body (in_hex 1 v) found (hex_char d ∷ t)
      ≡ (encode_rune (v * 16 + d) >>= λ bytes. read_body plain (reverse bytes ++ found) t)
unfolding read_body
read_body_last_digit v d found t small = let value = hex_value-hex_char d small in ground arith

-- An escape in hexadecimal stands for the UTF-8 of its number.
read_body_hex :
    (a b c d : ℕ) (found t : Text)
    → a < 16
    → b < 16
    → c < 16
    → d < 16
    → read_body plain found (codes "\\u" ++ (hex_char a ∷ hex_char b ∷ hex_char c ∷ hex_char d ∷ t))
      ≡ (encode_rune (((a * 16 + b) * 16 + c) * 16 + d) >>= λ bytes.
          read_body plain (reverse bytes ++ found) t)
unfolding read_body simple_escape
read_body_hex a b c d found t ha hb hc hd =
    read_body_digit 4 3 0 a a found (hex_char b ∷ hex_char c ∷ hex_char d ∷ t) ha refl (omega arith)
      (omega arith)
    ∙ read_body_digit 3 2 a (a * 16 + b) b found (hex_char c ∷ hex_char d ∷ t) hb refl (omega arith)
        refl
    ∙ read_body_digit 2 1 (a * 16 + b) ((a * 16 + b) * 16 + c) c found (hex_char d ∷ t) hc refl
        (omega arith) refl
    ∙ read_body_last_digit ((a * 16 + b) * 16 + c) d found t hd

read_body_ascii :
    (c : ℕ) (found t : Text)
    → c < 0x80
    → read_body plain found (codes "\\u00" ++ (hex_char (c / 16) ∷ hex_char (c % 16) ∷ t))
      ≡ read_body plain (c ∷ found) t
unfolding hex_char
read_body_ascii c found t small =
    let number : ((0 * 16 + 0) * 16 + c / 16) * 16 + c % 16 ≡ c = omega arith in
    let rune : encode_rune c ≡ some (c ∷ []) = (unfold encode_rune in ground arith) in
    read_body_hex 0 0 (c / 16) (c % 16) found t (omega arith) (omega arith) (omega arith)
      (omega arith)
    ∙ rw (number, rune) refl

pub read_body-escape_ascii :
    (c : ℕ) (found t : Text)
    → c < 0x80
    → read_body plain found (escape_ascii c ++ t) ≡ read_body plain (c ∷ found) t
unfolding escape_ascii read_body simple_escape
read_body-escape_ascii c found t small =
    let numbered = read_body_ascii c found t small in ground arith

read_line_separator :
    (found rest : Text)
    → read_body plain found (codes "\\u2028" ++ rest)
      ≡ read_body plain (0xa8 ∷ 0x80 ∷ 0xe2 ∷ found) rest
unfolding hex_char encode_rune
read_line_separator found rest =
    read_body_hex 2 0 2 8 found rest (omega arith) (omega arith) (omega arith) (omega arith)

read_paragraph_separator :
    (found rest : Text)
    → read_body plain found (codes "\\u2029" ++ rest)
      ≡ read_body plain (0xa9 ∷ 0x80 ∷ 0xe2 ∷ found) rest
unfolding hex_char encode_rune
read_paragraph_separator found rest =
    read_body_hex 2 0 2 9 found rest (omega arith) (omega arith) (omega arith) (omega arith)

pub read_body-separator :
    (c d e digit : ℕ) (t found rest : Text)
    → separator c (d ∷ e ∷ t) ≡ some digit
    → read_body plain found (codes "\\u202" ++ (digit ∷ rest))
      ≡ read_body plain (e ∷ d ∷ c ∷ found) rest
unfolding separator
read_body-separator c d e digit t found rest is =
    let line = read_line_separator found rest in
    let paragraph = read_paragraph_separator found rest in ground arith
