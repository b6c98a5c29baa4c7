-- ===== src/Encoding/Reading.antt =====
-- A text is read again as encoding/json writes it.
use mathlib.Core.List.{append_assoc, append-nil, reverse-cons}
use captcha_protect.Base.{
  Option-cases, le_or_lt, drop, ℕ, zero, suc, ◌≤◌, ◌≡◌, ◌∙◌, sym, ap, refl, inl, inr, Bool, true,
  false, [], ◌∷◌, ◌++◌, reverse, some, Text, arith,
}
use captcha_protect.Encoding.{
  trailing, tail_of, rune_tail, valid_loop, valid_string, separator, encode_loop, marshal_string,
}
use captcha_protect.Persist.Reader.{read_body, read_string, plain}
use captcha_protect.Encoding.Escapes.{read_body-escape_ascii, read_body-separator}
use captcha_protect.Encoding.Runes.{
  AreHigh, rune_tail-AreHigh, encode_ascii, encode_high, encode_separator,
}

valid_loop-high :
    (n : ℕ) (c : ℕ) (t : Text)
    → valid_loop 0 (c ∷ t) ≡ true
    → (k : ℕ) × (rune_tail c t ≡ some k) × (valid_loop k t ≡ true)
unfolding valid_loop
valid_loop-high n c t h = elim (Option-cases (rune_tail c t)) [
  | inl e ↦ cc
  | inr (k, e) ↦ (k, e, cc)
]

-- What is left of a text where the rest of a rune has been read.
abbrev unread : Bool → ℕ → Text → Text
unread true n t = t
unread false n t = drop n t

reverse_found : (c : ℕ) (found t : Text) → reverse (c ∷ found) ++ t ≡ reverse found ++ (c ∷ t)
reverse_found c found t = rw (reverse-cons, append_assoc) refl

read_body_high :
    (c : ℕ) (found t : Text)
    → 0x80 ≤ c
    → read_body plain found (c ∷ t) ≡ read_body plain (c ∷ found) t
unfolding read_body
read_body_high c found t high = ground arith

-- A separator is followed by the rest of its rune, which is passed over.
separator_tail :
    (c digit k : ℕ) (t : Text)
    → separator c t ≡ some digit
    → rune_tail c t ≡ some k
    → (d : ℕ) × (e : ℕ) × (t ≡ d ∷ e ∷ drop 2 t) × (k ≡ 2)
unfolding separator rune_tail tail_of trailing
separator_tail c digit k (d ∷ e ∷ t) is tail = (d, e, refl, ground arith)
separator_tail c digit k _ is tail = cc

module _ (rest : Text) where
  -- From within a rune, the encoding of the rest of a text is read as it.
  abbrev IsRead : Bool → ℕ → Text → Text → Type 0
  IsRead copied n t found =
      read_body plain found (encode_loop copied n t ++ (b'"' ∷ rest))
      ≡ some (reverse found ++ unread copied n t, rest)

  read_separator :
      (copied : Bool) (c k digit : ℕ) (t found : Text)
      → rune_tail c t ≡ some k
      → 0x80 ≤ c
      → separator c t ≡ some digit
      → ((found' : Text) → IsRead false k t found')
      → read_body plain found (encode_loop copied 0 (c ∷ t) ++ (b'"' ∷ rest))
        ≡ some (reverse found ++ (c ∷ t), rest)
  read_separator copied c k digit t found tail high is later =
      let (d, e, two, k_two) = separator_tail c digit k t is tail in
      let is' : separator c (d ∷ e ∷ drop 2 t) ≡ some digit = rw (← two) is in
      let same : reverse (e ∷ d ∷ c ∷ found) ++ drop k t ≡ reverse found ++ (c ∷ t) = rw k_two (
        reverse_found e (d ∷ c ∷ found) (drop 2 t)
        ∙ reverse_found d (c ∷ found) (e ∷ drop 2 t)
        ∙ reverse_found c found (d ∷ e ∷ drop 2 t)
        ∙ ap (λ u. reverse found ++ (c ∷ u)) (sym two)) in
      rw (encode_separator copied c k digit t tail high is) (
        read_body-separator c d e digit (drop 2 t) found _ is'
        ∙ later (e ∷ d ∷ c ∷ found)
        ∙ rw same refl)

  -- A rune, when the rest is read.
  read_rune :
      (copied : Bool) (c : ℕ) (t found : Text)
      → valid_loop 0 (c ∷ t) ≡ true
      → ((copied' : Bool) (k : ℕ) (found' : Text)
          → valid_loop k t ≡ true
          → AreHigh k t
          → IsRead copied' k t found')
      → read_body plain found (encode_loop copied 0 (c ∷ t) ++ (b'"' ∷ rest))
        ≡ some (reverse found ++ (c ∷ t), rest)
  read_rune copied c t found ok later =
      let (k, tail, ok') = valid_loop-high 0 c t ok in
      let highs = rune_tail-AreHigh c k t tail in
      elim (le_or_lt 0x80 c) [
        | inr small ↦
            rw (encode_ascii copied c k t tail small, append_assoc)
              (read_body-escape_ascii c found _ small
                ∙ later true k (c ∷ found) ok' highs
                ∙ rw (reverse_found c found t) refl)
        | inl high ↦ elim (Option-cases (separator c t)) [
          | inl unlike ↦ rw (encode_high copied c k t tail high unlike) (
              read_body_high c found _ high
              ∙ later true k (c ∷ found) ok' highs
              ∙ rw (reverse_found c found t) refl)
          | inr (digit, is) ↦
              read_separator copied c k digit t found tail high is
                (λ found'. later false k found' ok' highs)
        ]
      ]

  read_end : (found : Text) → read_body plain found (b'"' ∷ rest) ≡ some (reverse found, rest)
  unfolding read_body
  read_end found = refl

  unread_all : (copied : Bool) (t : Text) → unread copied 0 t ≡ t
  unread_all true t = refl
  unread_all false t = refl

  encode_loop-IsRead :
      (copied : Bool) (n : ℕ) (t found : Text)
      → valid_loop n t ≡ true
      → AreHigh n t
      → IsRead copied n t found
  unfolding encode_loop valid_loop
  encode_loop-IsRead copied zero [] found ok high =
      rw (unread_all copied [], append-nil) (read_end found)
  encode_loop-IsRead copied (suc n) [] found ok high = absurd high
  encode_loop-IsRead true (suc n) (c ∷ t) found ok (high, highs) =
      read_body_high c found _ high
      ∙ encode_loop-IsRead true n t (c ∷ found) ok highs
      ∙ rw (reverse_found c found t) refl
  encode_loop-IsRead false (suc n) (c ∷ t) found ok (high, highs) =
      encode_loop-IsRead false n t found ok highs
  encode_loop-IsRead copied zero (c ∷ t) found ok high =
      rw (unread_all copied (c ∷ t))
        (read_rune copied c t found ok (λ copied' k found'. encode_loop-IsRead copied' k t found'))

  -- A text of valid UTF-8 is read again as `json.Marshal` writes it.
  pub read_string-marshal_string :
      (s : Text) → valid_string s ≡ true → read_string (marshal_string s ++ rest) ≡ some (s, rest)
  unfolding read_string marshal_string
  read_string-marshal_string s ok =
      let body = encode_loop-IsRead true 0 s [] ok tt in rw (append_assoc, body, ok) refl
