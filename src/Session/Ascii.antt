-- ===== src/Session/Ascii.antt =====
-- The keys of sessions are ASCII, so they are valid UTF-8.
use captcha_protect.Base.{
  ℕ, zero, suc, ◌/◌, ◌%◌, ◌<◌, ◌≡◌, refl, true, List, [], ◌∷◌, ◌++◌, some, Text, codes, arith, All,
  All-append, take, drop, hex_char,
}
use captcha_protect.Encoding.{valid_loop, valid_string, rune_tail}
use captcha_protect.Session.{random_uuid, hex_byte, hex_bytes}
use captcha_protect.Session.Tokens.{
  AreBytes, AreBytes-drop, dashed, stamped, groups, random_uuid-stamped,
}

abbrev IsAscii : Text → Type 0
IsAscii = All (λ c. c < 0x80)

valid_loop-IsAscii : (s : Text) → IsAscii s → valid_loop 0 s ≡ true
unfolding valid_loop rune_tail
valid_loop-IsAscii [] small = refl
valid_loop-IsAscii (c ∷ s) (small, smalls) = ground (arith, valid_loop-IsAscii s smalls)

hex_char-ascii : (d : ℕ) → d < 16 → hex_char d < 0x80
unfolding hex_char
hex_char-ascii d small = ground arith

hex_bytes-IsAscii : (n : ℕ) (bytes : List ℕ) → AreBytes bytes → IsAscii (hex_bytes (take n bytes))
unfolding hex_bytes hex_byte
hex_bytes-IsAscii zero bytes small = tt
hex_bytes-IsAscii (suc n) [] small = tt
hex_bytes-IsAscii (suc n) (b ∷ bytes) (small, smalls) = (
  hex_char-ascii (b / 16) (omega arith),
  (hex_char-ascii (b % 16) (omega arith), hex_bytes-IsAscii n bytes smalls),
)

all_hex_bytes-IsAscii : (bytes : List ℕ) → AreBytes bytes → IsAscii (hex_bytes bytes)
unfolding hex_bytes hex_byte
all_hex_bytes-IsAscii [] small = tt
all_hex_bytes-IsAscii (b ∷ bytes) (small, smalls) = (
  hex_char-ascii (b / 16) (omega arith),
  (hex_char-ascii (b % 16) (omega arith), all_hex_bytes-IsAscii bytes smalls),
)

dashed-IsAscii : (sizes bytes : List ℕ) → AreBytes bytes → IsAscii (dashed sizes bytes)
unfolding dashed
dashed-IsAscii [] bytes small = all_hex_bytes-IsAscii bytes small
dashed-IsAscii (n ∷ sizes) bytes small =
    All-append (λ c. c < 0x80) (hex_bytes (take n bytes)) (b'-' ∷ dashed sizes (drop n bytes))
      (hex_bytes-IsAscii n bytes small)
      (omega arith, dashed-IsAscii sizes (drop n bytes) (AreBytes-drop n bytes small))

pub session_key_valid :
    (bytes : List ℕ) (token : Text)
    → All (λ b. b < 256) bytes
    → random_uuid (some bytes) ≡ some token
    → valid_string (codes "session:" ++ token) ≡ true
session_key_valid bytes token small drawn =
    let (_, stamps, same) = random_uuid-stamped bytes small drawn in
    let ascii : IsAscii token = rw (← same) (dashed-IsAscii groups (stamped bytes) stamps) in
    valid_loop-IsAscii (codes "session:" ++ token)
      (All-append (λ c. c < 0x80) (codes "session:") token (ground arith) ascii)
