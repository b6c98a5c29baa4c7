-- ===== src/Persist/Decimal.antt =====
-- The numbers of the state file.
use native.Mathlib.Nat.{pow-suc}
use captcha_protect.Base.{
  ℕ, zero, suc, ◌==◌, ◌≢◌, ◌+◌, ◌-◌, ◌/◌, ◌%◌, ◌^◌, ◌≤◌, ◌<◌, ◌≡◌, refl, ◌∙◌, inl, inr, false, [],
  ◌∷◌, ◌++◌, some, Text, arith, Bool-cases, le_or_lt, ltb, u64_mod, i64_half,
}
use captcha_protect.Persist.{decimal_digits, format_uint, format_int}
use captcha_protect.Persist.Reader.{is_digit, read_digits, read_natural, read_uint64, read_int64}

-- A text that does not begin with a digit.
abbrev pub Stops : Text → Type 0
Stops [] = Unit
Stops (c ∷ t) = is_digit c ≡ false

pub read_digits_stop : (n : ℕ) (t : Text) → Stops t → read_digits n t ≡ (n, t)
unfolding read_digits
read_digits_stop n [] h = refl
read_digits_stop n (c ∷ t) h = rw h refl

decimal_digits-append :
    (fuel n : ℕ) (found rest : Text)
    → decimal_digits fuel n found ++ rest ≡ decimal_digits fuel n (found ++ rest)
unfolding decimal_digits
decimal_digits-append zero n found rest = refl
decimal_digits-append (suc fuel) n found rest =
    ground (arith, decimal_digits-append fuel (n / 10) ((n % 10 + 48) ∷ found) rest)

decimal_digits_last :
    (fuel n : ℕ) (found : Text) → n < 10 → decimal_digits (suc fuel) n found ≡ (n + 48) ∷ found
unfolding decimal_digits
decimal_digits_last fuel n found small = ground arith

decimal_digits_more :
    (fuel n : ℕ) (found : Text)
    → 10 ≤ n
    → decimal_digits (suc fuel) n found ≡ decimal_digits fuel (n / 10) ((n % 10 + 48) ∷ found)
unfolding decimal_digits
decimal_digits_more fuel n found large = ground arith

read_digits_last :
    (n : ℕ) (found : Text) → read_digits (n / 10) ((n % 10 + 48) ∷ found) ≡ read_digits n found
unfolding read_digits
read_digits_last n found = ground arith

-- With fuel for all its digits, a number begins with a digit that is no zero, unless it is zero, and
-- reading on from that digit gives the number.
decimal_digits_read :
    (fuel n : ℕ) (found : Text)
    → n < 10 ^ suc fuel
    → (c : ℕ) × (t : Text) × (decimal_digits (suc fuel) n found ≡ c ∷ t)
      × (48 ≤ c)
      × (c ≤ 57)
      × (c ≡ 48 → (n ≡ 0) × (t ≡ found))
      × (read_digits (c - 48) t ≡ read_digits n found)
decimal_digits_read zero n found fits = (
  n + 48,
  found,
  decimal_digits_last zero n found (omega arith),
  omega arith,
  omega arith,
  (λ zeros. (omega arith, refl)),
  (let e : n + 48 - 48 ≡ n = omega arith in rw e refl),
)
decimal_digits_read (suc fuel) n found fits = elim (le_or_lt 10 n) [
  | inr small ↦ (
    n + 48,
    found,
    decimal_digits_last (suc fuel) n found small,
    omega arith,
    omega arith,
    (λ zeros. (omega arith, refl)),
    (let e : n + 48 - 48 ≡ n = omega arith in rw e refl),
  )
  | inl large ↦
      (let shorter : n / 10 < 10 ^ suc fuel = (let e = pow-suc 10 (suc fuel) in omega arith) in
        let (c, t, starts, low, high, zeros, reads) =
          decimal_digits_read fuel (n / 10) ((n % 10 + 48) ∷ found) shorter in
        (
          c,
          t,
          decimal_digits_more (suc fuel) n found large ∙ starts,
          low,
          high,
          (λ e. absurd (let none_left = zeros e in omega arith)),
          reads ∙ read_digits_last n found,
        ))
]

-- A 64-bit number is read again as it was written, with nothing of a digit behind it.
pub read_natural-format_uint :
    (n : ℕ) (rest : Text)
    → n < u64_mod
    → Stops rest
    → read_natural (format_uint n ++ rest) ≡ some (n, rest)
unfolding read_natural
read_natural-format_uint n rest fits stops =
    let (c, t, starts, low, high, zeros, reads) = decimal_digits_read 19 n rest (omega arith) in
    rw (decimal_digits-append 20 n [] rest, starts)
      (elim (Bool-cases (c == 48)) [
        | inl e ↦ (let (none_left, same) = zeros (ground arith) in rw (e, none_left, same) refl)
        | inr e ↦ ground (arith, reads, read_digits_stop n rest stops)
      ])

pub read_uint64-format_uint :
    (n : ℕ) (rest : Text)
    → n < u64_mod
    → Stops rest
    → read_uint64 (format_uint n ++ rest) ≡ some (n, rest)
read_uint64-format_uint n rest fits stops =
    rw (read_natural-format_uint n rest fits stops) (ground arith)

format_uint_head :
    (n : ℕ) → n < u64_mod → (c : ℕ) × (t : Text) × (format_uint n ≡ c ∷ t) × (c ≢ b'-')
format_uint_head n fits =
    let (c, t, starts, low, _, _, _) = decimal_digits_read 19 n [] (omega arith) in
    (c, t, starts, omega arith)

-- So is an `int64`, negative ones included.
pub read_int64-format_int :
    (n : ℕ) (rest : Text)
    → n < u64_mod
    → Stops rest
    → read_int64 (format_int n ++ rest) ≡ some (n, rest)
unfolding read_int64
read_int64-format_int n rest fits stops = elim (Bool-cases (ltb n i64_half)) [
  | inl e ↦
      (let (c, t, starts, signless) = format_uint_head n fits in
        let reads = read_natural-format_uint n rest fits stops in
        let reads' = rw starts at reads in rw (e, starts) (ground (arith, reads')))
  | inr e ↦
      (let reads = read_natural-format_uint (u64_mod - n) rest (ground arith) stops in
        rw (e, reads) (ground arith))
]
