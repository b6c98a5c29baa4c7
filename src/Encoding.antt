-- ===== src/Encoding.antt =====
-- What is used of utf8 and encoding/json of the standard library: `utf8.ValidString`, and
-- `json.Marshal` of a text.
pub mod Escapes
pub mod Runes
pub mod Reading
pub mod Harmless
use captcha_protect.Base.{
  hex_char, ℕ, zero, suc, ◌+◌, ◌-◌, ◌/◌, ◌%◌, Bool, true, false, not, ◌&&◌, ◌||◌, List, [], ◌∷◌,
  ◌++◌, Option, none, some, Text, codes, if◌then◌else◌, ◌==◌, ltb, leb,
}

-- A byte within bounds.
abbrev pub within : ℕ → ℕ → ℕ → Bool
within low high c = leb low c && leb c high

abbrev pub continues : ℕ → Bool
continues c = within 0x80 0xbf c

-- The bounds of the second byte of a rune of three or four bytes, after the first.
abbrev pub second_low : ℕ → ℕ
second_low c = if c == 0xe0 then 0xa0 else if c == 0xf0 then 0x90 else 0x80

abbrev pub second_high : ℕ → ℕ
second_high c = if c == 0xed then 0x9f else if c == 0xf4 then 0x8f else 0xbf

-- A text begins with bytes that continue a rune, in that number.
unfoldable pub trailing : ℕ → Text → Bool
trailing zero t = true
trailing (suc n) [] = false
trailing (suc n) (c ∷ t) = continues c && trailing n t

-- The bytes after the first of a rune, of which the second has its own bounds.
unfoldable pub tail_of : ℕ → ℕ → ℕ → Text → Option ℕ
tail_of n low high [] = none
tail_of n low high (d ∷ t) = if within low high d && trailing n t then some (suc n) else none

-- How many bytes come after the first byte of the rune at the beginning of a text; `none` where no
-- rune is encoded there.
unfoldable pub rune_tail : ℕ → Text → Option ℕ
rune_tail c t =
    if ltb c 0x80
    then some 0
    else if within 0xc2 0xdf c
    then tail_of 0 0x80 0xbf t
    else if within 0xe0 0xef c
    then tail_of 1 (second_low c) (second_high c) t
    else if within 0xf0 0xf4 c
    then tail_of 2 (second_low c) (second_high c) t
    else none

-- From within a rune, with the number of its bytes that are still to come.
unfoldable pub valid_loop : ℕ → Text → Bool
valid_loop n [] = true
valid_loop (suc n) (c ∷ t) = valid_loop n t
valid_loop zero (c ∷ t) = elim (rune_tail c t) [ none ↦ false | some n ↦ valid_loop n t ]

-- `utf8.ValidString`
abbrev pub valid_string : Text → Bool
valid_string s = valid_loop 0 s

-- What stands for a byte below 0x80: the quotation mark and the backslash are escaped, and so are
-- control characters and the characters that mean something in HTML.
unfoldable pub escape_ascii : ℕ → Text
escape_ascii c =
    if c == 0x5c || c == b'"'
    then 0x5c ∷ c ∷ []
    else if c == 8
    then codes "\\b"
    else if c == 12
    then codes "\\f"
    else if c == 10
    then codes "\\n"
    else if c == 13
    then codes "\\r"
    else if c == 9
    then codes "\\t"
    else if ltb c 0x20 || c == b'<' || c == b'>' || c == b'&'
    then codes "\\u00" ++ (hex_char (c / 16) ∷ hex_char (c % 16) ∷ [])
    else c ∷ []

-- The last digit of the line separator U+2028 or the paragraph separator U+2029, where a text begins
-- with one.
unfoldable pub separator : ℕ → Text → Option ℕ
separator c (d ∷ e ∷ t) =
    if c == 0xe2 && d == 0x80
    then if e == 0xa8 then some b'8' else if e == 0xa9 then some b'9' else none
    else none
separator c _ = none

-- From within a rune: the bytes of it that are still to come are copied or passed over.
unfoldable pub encode_loop : Bool → ℕ → Text → Text
encode_loop copied n [] = []
encode_loop copied (suc n) (c ∷ t) =
    let rest = encode_loop copied n t in if copied then c ∷ rest else rest
encode_loop copied zero (c ∷ t) = elim (rune_tail c t) [
  | none ↦ codes "\\ufffd" ++ encode_loop true 0 t
  | some n ↦ if ltb c 0x80 then escape_ascii c ++ encode_loop true n t else elim (separator c t) [
    | none ↦ c ∷ encode_loop true n t
    | some digit ↦ codes "\\u202" ++ (digit ∷ encode_loop false n t)
  ]
]

-- `json.Marshal` of a text, which cannot fail.
unfoldable pub marshal_string : Text → Text
marshal_string s = b'"' ∷ (encode_loop true 0 s ++ (b'"' ∷ []))
