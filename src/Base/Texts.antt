-- ===== src/Base/Texts.antt =====
-- Go strings as lists of bytes, and the functions of package `strings` that the source calls.
-- Lower-casing and white space are those of ASCII text.
use Prim.Native.Nat.{ℕ, suc, ◌+◌, ◌-◌, ◌*◌}
use Prim.Native.Char.{code}
use Prim.Native.String.{String}
use mathlib.Core.Path.{◌≡◌, refl, ap, sym, ◌∙◌}
use mathlib.Core.Logic.{◌≢◌, ◌↔◌, inl, inr}
use mathlib.Core.Bool.{Bool, true, false, ◌&&◌, ◌||◌}
use mathlib.Core.List.{List, [], ◌∷◌, ◌++◌, map, reverse}
use mathlib.Core.Option
use mathlib.Core.Option.{Option, none, some}
use native.Mathlib.Omega.{arith}
use captcha_protect.Base.Tests.{ltb, leb, ◌==◌, if◌then◌else◌, Bool-cases}
use captcha_protect.Base.Lists.{length, take, drop, length-append, drop-append, take-append-drop}

abbrev pub Text : Type 0
Text = List ℕ

-- The bytes of an ASCII literal.
abbrev pub codes : String → Text
codes String.[] = []
codes (String.◌∷◌ c s) = code c ∷ codes s

unfoldable pub text_eq : Text → Text → Bool
text_eq [] [] = true
text_eq [] (y ∷ ys) = false
text_eq (x ∷ xs) [] = false
text_eq (x ∷ xs) (y ∷ ys) = x == y && text_eq xs ys

pub text_eq_refl : (s : Text) → text_eq s s ≡ true
unfolding text_eq
text_eq_refl [] = refl
text_eq_refl (x ∷ xs) = ground (arith, text_eq_refl xs)

pub text_eq_sound : (s t : Text) → text_eq s t ≡ true → s ≡ t
unfolding text_eq
text_eq_sound [] [] h = refl
text_eq_sound [] (y ∷ ys) h = ground arith
text_eq_sound (x ∷ xs) [] h = ground arith
text_eq_sound (x ∷ xs) (y ∷ ys) h = ground (arith, text_eq_sound xs ys)

pub text_eq_iff : (s t : Text) → (text_eq s t ≡ true) ↔ (s ≡ t)
text_eq_iff s t = (text_eq_sound s t, λ e. ground (arith, text_eq_refl s))

pub text_ne : (s t : Text) → text_eq s t ≡ false → s ≢ t
text_ne s t e same = let equal = (text_eq_iff s t).1 same in cc

pub no_text_eq : (s t : Text) → s ≢ t → text_eq s t ≡ false
no_text_eq s t h = elim (Bool-cases (text_eq s t)) [
  | inl e ↦ absurd (h (text_eq_sound s t e))
  | inr e ↦ e
]

-- `strings.HasPrefix(s, t)`
unfoldable pub starts_with : Text → Text → Bool
starts_with s [] = true
starts_with [] (y ∷ t) = false
starts_with (x ∷ s) (y ∷ t) = x == y && starts_with s t

abbrev pub IsPrefix : Text → Text → Type 0
IsPrefix t s = (r : Text) × (s ≡ t ++ r)

pub starts_with_iff : (s t : Text) → (starts_with s t ≡ true) ↔ IsPrefix t s
unfolding starts_with
starts_with_iff s [] = (λ h. (s, refl), λ h. refl)
starts_with_iff [] (y ∷ t) = (λ h. ground arith, λ h. ground arith)
starts_with_iff (x ∷ s) (y ∷ t) =
    let ih = starts_with_iff s t in
    (
      λ h. let (r, e) = ih.0 (ground arith) in (r, ground arith),
      λ h. let p : starts_with s t ≡ true = ih.1 (h.0, ground arith) in ground arith,
    )

-- `strings.HasSuffix(s, t)`
unfoldable pub ends_with : Text → Text → Bool
unfolding text_eq
ends_with s t = leb (length t) (length s) && text_eq (drop (length s - length t) s) t

abbrev pub IsSuffix : Text → Text → Type 0
IsSuffix t s = (r : Text) × (s ≡ r ++ t)

-- `strings.Contains(s, t)`: some tail of `s` begins with `t`.
unfoldable pub contains_text : Text → Text → Bool
unfolding starts_with
contains_text [] t = starts_with [] t
contains_text (x ∷ s) t = starts_with (x ∷ s) t || contains_text s t

-- `strings.ToLower(s)`
unfoldable pub lower_byte : ℕ → ℕ
lower_byte c = if leb b'A' c && leb c b'Z' then c + 32 else c

unfoldable pub to_lower : Text → Text
unfolding lower_byte
to_lower = map lower_byte

-- `strings.TrimSuffix(s, t)`, `strings.TrimPrefix(s, t)`
unfoldable pub trim_suffix : Text → Text → Text
unfolding ends_with
trim_suffix s t = if ends_with s t then take (length s - length t) s else s

unfoldable pub trim_prefix : Text → Text → Text
unfolding starts_with
trim_prefix s t = if starts_with s t then drop (length t) s else s

-- `strings.TrimLeft`, `strings.TrimRight` and `strings.Trim` for the bytes that pass a test.
unfoldable pub trim_left : (ℕ → Bool) → Text → Text
trim_left p [] = []
trim_left p (x ∷ s) = let rest = trim_left p s in if p x then rest else x ∷ s

unfoldable pub trim_right : (ℕ → Bool) → Text → Text
unfolding trim_left
trim_right p s = reverse (trim_left p (reverse s))

unfoldable pub trim : (ℕ → Bool) → Text → Text
unfolding trim_right trim_left
trim p s = trim_right p (trim_left p s)

abbrev pub is_space : ℕ → Bool
is_space c = c == 32 || (leb 9 c && leb c 13)

-- `strings.TrimSpace(s)`
unfoldable pub trim_space : Text → Text
unfolding trim
trim_space = trim is_space

-- `strings.Split(s, sep)` at a one-byte separator: `(first, rest)`, the list of the parts.
abbrev pub cons_part : ℕ → Text × List Text → Text × List Text
cons_part x (part, parts) = (x ∷ part, parts)

unfoldable pub split_parts : ℕ → Text → Text × List Text
split_parts sep [] = ([], [])
split_parts sep (x ∷ s) =
    let rest = split_parts sep s in if x == sep then ([], rest.0 ∷ rest.1) else (x ∷ rest.0, rest.1)

unfoldable pub split : ℕ → Text → List Text
unfolding split_parts
split sep s = let parts = split_parts sep s in parts.0 ∷ parts.1

pub text_eq-length : (s t : Text) → text_eq s t ≡ true → length s ≡ length t
text_eq-length s t h = ap length (text_eq_sound s t h)

pub ends_with_iff : (s t : Text) → (ends_with s t ≡ true) ↔ IsSuffix t s
unfolding ends_with
ends_with_iff s t =
    let n = length s - length t in
    (
      λ h. (
        take n s,
        sym (take-append-drop n s)
            ∙ ap (λ u. take n s ++ u) (text_eq_sound (drop n s) t (ground arith)),
      ),
      λ (r, e).
          let k : n ≡ length r = omega (arith, ap length e, length-append r t) in
          let d : drop n s ≡ t = rw (k, e) (drop-append r t) in
          let q : text_eq (drop n s) t ≡ true = (text_eq_iff (drop n s) t).1 d in
          ground (arith, ap length e, length-append r t),
    )

abbrev pub IsInfix : Text → Text → Type 0
IsInfix t s = (before after : Text) × (s ≡ before ++ (t ++ after))

infix_at : (s t : Text) → starts_with s t ≡ true → IsInfix t s
infix_at s t h = let (r, e) = (starts_with_iff s t).0 h in ([], r, e)

contains-IsInfix : (s t : Text) → contains_text s t ≡ true → IsInfix t s
unfolding contains_text
contains-IsInfix [] t h = infix_at [] t h
contains-IsInfix (x ∷ s) t h = elim (Bool-cases (starts_with (x ∷ s) t)) [
  | inl now ↦ infix_at (x ∷ s) t now
  | inr later ↦
      let (before, after, e) = contains-IsInfix s t (ground arith) in
      (x ∷ before, after, ap (λ u. x ∷ u) e)
]

IsInfix-contains : (s t before after : Text) → s ≡ before ++ (t ++ after) → contains_text s t ≡ true
unfolding contains_text
IsInfix-contains [] t [] after e = (starts_with_iff [] t).1 (after, e)
IsInfix-contains [] t (y ∷ before) after e = cc
IsInfix-contains (x ∷ s) t [] after e =
    let now : starts_with (x ∷ s) t ≡ true = (starts_with_iff (x ∷ s) t).1 (after, e) in
    ground arith
IsInfix-contains (x ∷ s) t (y ∷ before) after e =
    let later : contains_text s t ≡ true = IsInfix-contains s t before after (ground arith) in
    ground arith

pub contains_text_iff : (s t : Text) → (contains_text s t ≡ true) ↔ IsInfix t s
contains_text_iff s t =
    (contains-IsInfix s t, λ (before, after, e). IsInfix-contains s t before after e)

-- `strings.IndexByte` and `strings.LastIndexByte`
unfoldable pub index_byte : ℕ → Text → Option ℕ
index_byte c [] = none
index_byte c (x ∷ s) =
    let later = Option.map suc (index_byte c s) in if x == c then some 0 else later

unfoldable pub last_index_byte : ℕ → Text → Option ℕ
last_index_byte c [] = none
last_index_byte c (x ∷ s) = elim (last_index_byte c s) [
  | some i ↦ some (suc i)
  | none ↦ if x == c then some 0 else none
]

-- A decimal number without a leading zero and at most `limit`.
decimal_loop : ℕ → ℕ → Text → Option ℕ
decimal_loop limit n [] = some n
decimal_loop limit n (c ∷ s) =
    let m = n * 10 + (c - 48) in
    let rest = decimal_loop limit m s in
    if leb b'0' c && leb c b'9' && leb m limit then rest else none

unfoldable pub parse_decimal : ℕ → Text → Option ℕ
unfolding decimal_loop
parse_decimal limit [] = none
parse_decimal limit (c ∷ []) = decimal_loop limit 0 (c ∷ [])
parse_decimal limit (c ∷ d ∷ s) =
    let n = decimal_loop limit 0 (c ∷ d ∷ s) in if c == b'0' then none else n

split_parts-append :
    (sep : ℕ) (s t : Text)
    → split_parts sep (s ++ (sep ∷ t))
      ≡ ((split_parts sep s).0, (split_parts sep s).1 ++ split sep t)
unfolding split
split_parts-append sep [] t = ground arith
split_parts-append sep (x ∷ s) t = ground (arith, split_parts-append sep s t)

-- Splitting at a separator that stands between two texts splits each of them.
pub split-append : (sep : ℕ) (s t : Text) → split sep (s ++ (sep ∷ t)) ≡ split sep s ++ split sep t
unfolding split
split-append sep s t = ap (λ p. p.0 ∷ p.1) (split_parts-append sep s t)

-- The lower-case hexadecimal digit of a number below 16.
unfoldable pub hex_char : ℕ → ℕ
hex_char d = if ltb d 10 then d + 48 else d + 87
