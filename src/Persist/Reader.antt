-- ===== src/Persist/Reader.antt =====
-- A strict reader of the state file: what encoding/json makes of a text that is the JSON (RFC 8259)
-- of a `persistentState` with no space between its parts, the fields in the order of the struct
-- and each number without a sign it does not need. A text in another form is `none` here, whatever
-- encoding/json says of it.
use captcha_protect.Base.{
  ℕ, zero, suc, ◌+◌, ◌-◌, ◌*◌, ◌/◌, ◌%◌, Bool, true, false, ◌&&◌, ◌||◌, List, [], ◌∷◌, ◌++◌,
  reverse, Option, none, some, Text, codes, text_eq, length, if◌then◌else◌, ◌==◌, ltb, leb, u64_mod,
  i64_half,
}
use captcha_protect.Encoding.{valid_string}
use captcha_protect.Snapshot.{CacheEntry}

infixl 5 ◌>>=◌
abbrev pub ◌>>=◌ {ℓ κ} : {A : Type ℓ} {B : Type κ} → Option A → (A → Option B) → Option B
none >>= f = none
some a >>= f = f a

-- What is left after a text that must come next.
unfoldable pub expect : Text → Text → Option Text
expect [] t = some t
expect (c ∷ p) [] = none
expect (c ∷ p) (d ∷ t) = if c == d then expect p t else none

abbrev pub is_digit : ℕ → Bool
is_digit c = leb 48 c && leb c 57

unfoldable pub read_digits : ℕ → Text → ℕ × Text
read_digits n [] = (n, [])
read_digits n (c ∷ t) = if is_digit c then read_digits (n * 10 + (c - 48)) t else (n, c ∷ t)

-- A number has no leading zero.
unfoldable pub read_natural : Text → Option (ℕ × Text)
read_natural [] = none
read_natural (c ∷ t) =
    if c == 48 then some (0, t) else if is_digit c then some (read_digits (c - 48) t) else none

-- Within a bound.
abbrev pub below : ℕ → Option (ℕ × Text) → Option (ℕ × Text)
below bound read = read >>= λ (n, t). if ltb n bound then some (n, t) else none

abbrev pub read_uint64 : Text → Option (ℕ × Text)
read_uint64 t = below u64_mod (read_natural t)

-- An `int64`, as a bit pattern.
unfoldable pub read_int64 : Text → Option (ℕ × Text)
read_int64 [] = none
read_int64 (c ∷ t) =
    if c == b'-'
    then (below (i64_half + 1) (read_natural t) >>= λ (n, rest).
        some ((u64_mod - n) % u64_mod, rest))
    else below i64_half (read_natural (c ∷ t))

unfoldable pub read_bool : Text → Option (Bool × Text)
read_bool t = elim (expect (codes "true") t) [
  | some rest ↦ some (true, rest)
  | none ↦ (expect (codes "false") t >>= λ rest. some (false, rest))
]

-- Where the reader stands in a string: between characters, after a backslash, or within the four
-- hexadecimal digits of an escape, with those to come and the number so far.
pub data Place : Type 0 where
  plain escaped : Place
  in_hex : ℕ → ℕ → Place

-- The byte that a backslash and another byte stand for.
unfoldable pub simple_escape : ℕ → Option ℕ
simple_escape c =
    if c == b'"' || c == 0x5c || c == b'/'
    then some c
    else if c == b'b'
    then some 8
    else if c == b'f'
    then some 12
    else if c == b'n'
    then some 10
    else if c == b'r'
    then some 13
    else if c == b't'
    then some 9
    else none

unfoldable pub hex_value : ℕ → Option ℕ
hex_value c =
    if is_digit c
    then some (c - 48)
    else if leb b'a' c && leb c b'f'
    then some (c - 87)
    else if leb b'A' c && leb c b'F'
    then some (c - 55)
    else none

-- UTF-8 of a number below 2^16; a half of a surrogate pair has none.
unfoldable pub encode_rune : ℕ → Option Text
encode_rune v =
    if ltb v 0x80
    then some (v ∷ [])
    else if ltb v 0x800
    then some ((0xc0 + v / 64) ∷ (0x80 + v % 64) ∷ [])
    else if leb 0xd800 v && ltb v 0xe000
    then none
    else some ((0xe0 + v / 4096) ∷ (0x80 + v / 64 % 64) ∷ (0x80 + v % 64) ∷ [])

-- The bytes up to the quotation mark that ends a string, after those that were found, the last
-- first.
unfoldable pub read_body : Place → Text → Text → Option (Text × Text)
read_body place found [] = none
read_body plain found (c ∷ t) =
    let rest = read_body plain (c ∷ found) t in
    let rest' = read_body escaped found t in
    if c == b'"'
    then some (reverse found, t)
    else if c == 0x5c
    then rest'
    else if ltb c 0x20
    then none
    else rest
read_body escaped found (c ∷ t) = elim (simple_escape c) [
  | some b ↦ read_body plain (b ∷ found) t
  | none ↦ (let rest = read_body (in_hex 4 0) found t in if c == b'u' then rest else none)
]
read_body (in_hex digits v) found (c ∷ t) = elim (hex_value c) [
  | none ↦ none
  | some d ↦
      (let more = read_body (in_hex (digits - 1) (v * 16 + d)) found t in
        let last =
          encode_rune (v * 16 + d) >>= λ bytes. read_body plain (reverse bytes ++ found) t in
        if ltb 1 digits then more else last)
]

-- A string, whose bytes must be valid UTF-8.
unfoldable pub read_string : Text → Option (Text × Text)
read_string [] = none
read_string (c ∷ t) =
    if c == b'"'
    then (read_body plain [] t >>= λ (s, rest). if valid_string s then some (s, rest) else none)
    else none

unfoldable pub read_entry : Text → Option ((Text × CacheEntry) × Text)
read_entry t = do
  (key, t) ← read_string t
  t ← expect (codes ":{\"value\":") t
  (value, t) ← read_bool t
  t ← expect (codes ",\"expiration\":") t
  (expiration, t) ← read_int64 t
  t ← expect (codes "}") t
  some ((key, record { value = value; expiration = expiration }), t)

-- Entries with commas between them and a brace after the last, at most `fuel` of them.
unfoldable pub read_entries : ℕ → Text → Option (List (Text × CacheEntry) × Text)
read_entries zero t = none
read_entries (suc fuel) t = read_entry t >>= λ (e, t'). elim (expect (codes "}") t') [
  | some rest ↦ some (e ∷ [], rest)
  | none ↦
      (expect (codes ",") t' >>= λ rest.
      read_entries fuel rest >>= λ (es, rest'). some (e ∷ es, rest'))
]

unfoldable pub read_map : Text → Option (List (Text × CacheEntry) × Text)
read_map t = elim (expect (codes "{}") t) [
  | some rest ↦ some ([], rest)
  | none ↦ (expect (codes "{") t >>= λ rest. read_entries (length rest) rest)
]

-- The verified visitors of a state file.
unfoldable pub read_state : Text → Option (List (Text × CacheEntry))
read_state t = do
  t ← expect (codes "{\"verified\":") t
  (entries, t) ← read_map t
  t ← expect (codes ",\"memory\":{\"verified\":") t
  (memory, t) ← read_uint64 t
  t ← expect (codes "}}") t
  if text_eq t [] then some entries else none
