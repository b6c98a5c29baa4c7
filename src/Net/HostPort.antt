-- ===== src/Net/HostPort.antt =====
-- `net.SplitHostPort`, which fails with `none`.
use captcha_protect.Base.{ℕ, ◌+◌, Bool, not, ◌||◌, [], ◌∷◌}
use captcha_protect.Base.{Option, none, some, Text, index_byte, last_index_byte}
use captcha_protect.Base.{if◌then◌else◌, ◌==◌, take, drop, any}

abbrev has_byte : ℕ → Text → Bool
has_byte c s = any (λ x. x == c) s

-- Brackets: the first `]` stands just before the last colon, at `i`.
bracketed : Text → ℕ → Option Text
bracketed s i = elim (index_byte b']' s) [
  | none ↦ none
  | some end ↦
      if not (end + 1 == i)
      then none
      else if has_byte b'[' (drop 1 s) || has_byte b']' (drop (end + 1) s)
      then none
      else some (drop 1 (take end s))
]

plain_host : Text → ℕ → Option Text
plain_host s i =
    if has_byte b':' (take i s) || has_byte b'[' s || has_byte b']' s then none else some (take i s)

-- The host; the port is what follows the last colon.
unfoldable pub split_host_port : Text → Option Text
unfolding bracketed plain_host any index_byte last_index_byte
split_host_port [] = none
split_host_port (c ∷ s) = elim (last_index_byte b':' (c ∷ s)) [
  | none ↦ none
  | some i ↦ if c == b'[' then bracketed (c ∷ s) i else plain_host (c ∷ s) i
]
