-- ===== src/Session.antt =====
-- Browser sessions: `randomUUID` and `sessionCookieName` of main.go.
pub mod Tokens
pub mod Ascii
use captcha_protect.Base.{hex_char, ℕ, zero, suc, ◌+◌, ◌*◌, ◌/◌, ◌%◌, List, [], ◌∷◌, ◌++◌}
use captcha_protect.Base.{Option, none, some, Text, codes, if◌then◌else◌, ◌==◌, ltb, u64_mod}
use Prim.Native.Nat.{bit_and, bit_or, bit_xor}

-- `%02x` of a byte.
unfoldable pub hex_byte : ℕ → Text
unfolding hex_char
hex_byte b = hex_char (b / 16) ∷ hex_char (b % 16) ∷ []

unfoldable pub hex_bytes : List ℕ → Text
unfolding hex_byte
hex_bytes [] = []
hex_bytes (b ∷ bytes) = hex_byte b ++ hex_bytes bytes

-- The sixteen random bytes, or `none` where the source of randomness fails; another number of
-- bytes cannot come.
unfoldable pub random_uuid : Option (List ℕ) → Option Text
unfolding hex_bytes
random_uuid
      (some (
        b0 ∷ b1 ∷ b2 ∷ b3 ∷ b4 ∷ b5 ∷ b6 ∷ b7 ∷ b8 ∷ b9 ∷ b10 ∷ b11 ∷ b12 ∷ b13 ∷ b14 ∷ b15 ∷ [])) =
    let b6' = bit_or (bit_and b6 0x0f) 0x40 in
    let b8' = bit_or (bit_and b8 0x3f) 0x80 in
    some (
      hex_bytes (b0 ∷ b1 ∷ b2 ∷ b3 ∷ [])
      ++ (b'-' ∷ hex_bytes (b4 ∷ b5 ∷ []))
      ++ (b'-' ∷ hex_bytes (b6' ∷ b7 ∷ []))
      ++ (b'-' ∷ hex_bytes (b8' ∷ b9 ∷ []))
      ++ (b'-' ∷ hex_bytes (b10 ∷ b11 ∷ b12 ∷ b13 ∷ b14 ∷ b15 ∷ [])))
random_uuid _ = none

-- FNV-1a on 64 bits.
unfoldable pub fnv64a : ℕ → Text → ℕ
fnv64a hash [] = hash
fnv64a hash (c ∷ s) = fnv64a (bit_xor hash c * 1099511628211 % u64_mod) s

-- `%x` of a number of at most `fuel` hexadecimal digits.
hex_digits : ℕ → ℕ → Text → Text
unfolding hex_char
hex_digits zero n found = found
hex_digits (suc fuel) n found =
    let rest = hex_digits fuel (n / 16) (hex_char (n % 16) ∷ found) in
    if n == 0 then found else rest

abbrev hex_number : ℕ → Text
unfolding hex_digits
hex_number n = if n == 0 then codes "0" else hex_digits 16 n []

-- `sessionCookieName`, from the name of the middleware.
unfoldable pub session_cookie_name : Text → Text
unfolding fnv64a hex_digits
session_cookie_name name = codes "captcha_protect_" ++ hex_number (fnv64a 14695981039346656037 name)
