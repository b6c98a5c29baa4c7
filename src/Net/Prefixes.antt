-- ===== src/Net/Prefixes.antt =====
-- `netip.Prefix` with `ParsePrefix`, `Masked`, `Contains` and `String`, and `Addr.Compare`.
use captcha_protect.Base.{hex_char, ℕ, zero, suc, ◌+◌, ◌/◌, ◌%◌, ◌^◌, ◌-◌, Bool, true, false, ◌&&◌}
use captcha_protect.Base.{
  List, [], ◌∷◌, ◌++◌, Option, none, some, Text, codes, last_index_byte, parse_decimal,
}
use captcha_protect.Base.{if◌then◌else◌, ◌==◌, leb, ltb, take, drop}
use captcha_protect.Net.Addrs.{Addr, v4, v6, parse_addr}
use captcha_protect.Net.Block.{mask_to}

pub record Prefix : Type 0 where
  pub addr : Addr
  pub bits : ℕ

abbrev pub bit_len : Addr → ℕ
bit_len (v4 a) = 32
bit_len (v6 a) = 128

abbrev pub value : Addr → ℕ
value (v4 a) = a
value (v6 a) = a

-- `Is4`
abbrev pub is4 : Addr → Bool
is4 (v4 a) = true
is4 (v6 a) = false

-- `Addr.Compare(b) < 0`: the lengths first, then the numbers.
unfoldable pub addr_less : Addr → Addr → Bool
addr_less a b =
    if bit_len a == bit_len b then ltb (value a) (value b) else ltb (bit_len a) (bit_len b)

abbrev pub with_value : Addr → ℕ → Addr
with_value (v4 a) n = v4 n
with_value (v6 a) n = v6 n

-- `Prefix.Masked`
unfoldable pub masked : Prefix → Prefix
masked p = record p { addr = with_value p.addr (mask_to (bit_len p.addr) p.bits (value p.addr)) }

-- The network part of an address under a prefix of this length.
abbrev pub network_of : ℕ → ℕ → ℕ → ℕ
network_of width bits a = a / 2 ^ (width - bits)

-- `Prefix.Contains`, for a valid prefix.
unfoldable pub prefix_contains : Prefix → Addr → Bool
prefix_contains p a =
    bit_len p.addr == bit_len a
    && network_of (bit_len p.addr) p.bits (value p.addr)
      == network_of (bit_len p.addr) p.bits (value a)

-- `netip.ParsePrefix`
unfoldable pub parse_prefix : Text → Option Prefix
parse_prefix s = elim (last_index_byte b'/' s) [
  | none ↦ none
  | some i ↦ elim (parse_addr (take i s)) [
    | none ↦ none
    | some a ↦ elim (parse_decimal (bit_len a) (drop (suc i) s)) [
      | none ↦ none
      | some bits ↦ some (record { addr = a; bits = bits })
    ]
  ]
]

-- The digits of a number below 1000, in decimal.
unfoldable pub decimal_string : ℕ → Text
decimal_string n =
    if ltb n 10
    then (n + 48) ∷ []
    else if ltb n 100
    then (n / 10 + 48) ∷ (n % 10 + 48) ∷ []
    else (n / 100 + 48) ∷ (n / 10 % 10 + 48) ∷ (n % 10 + 48) ∷ []

ipv4_string : ℕ → Text
unfolding decimal_string
ipv4_string a =
    decimal_string (a / 16777216 % 256)
    ++ (b'.' ∷ decimal_string (a / 65536 % 256))
    ++ (b'.' ∷ decimal_string (a / 256 % 256))
    ++ (b'.' ∷ decimal_string (a % 256))

-- A group in hexadecimal without leading zeros.
hex_string : ℕ → Text
unfolding hex_char
hex_string g =
    if ltb g 16
    then hex_char g ∷ []
    else if ltb g 256
    then hex_char (g / 16) ∷ hex_char (g % 16) ∷ []
    else if ltb g 4096
    then hex_char (g / 256) ∷ hex_char (g / 16 % 16) ∷ hex_char (g % 16) ∷ []
    else hex_char (g / 4096)
      ∷ hex_char (g / 256 % 16)
      ∷ hex_char (g / 16 % 16)
      ∷ hex_char (g % 16)
      ∷ []

groups_of : ℕ → ℕ → List ℕ
groups_of zero a = []
groups_of (suc k) a = groups_of k (a / 65536) ++ ((a % 65536) ∷ [])

zero_run : List ℕ → ℕ
zero_run [] = 0
zero_run (g ∷ gs) = let n = zero_run gs in if g == 0 then n + 1 else 0

-- The first of the longest runs of at least two zero groups: its start and its length.
longest_zeros : ℕ → List ℕ → ℕ × ℕ → ℕ × ℕ
unfolding zero_run
longest_zeros i [] best = best
longest_zeros i (g ∷ gs) best =
    let n = zero_run (g ∷ gs) in
    longest_zeros (i + 1) gs (if ltb best.1 n && leb 2 n then (i, n) else best)

join_colons : List ℕ → Text
unfolding hex_string
join_colons [] = []
join_colons (g ∷ []) = hex_string g
join_colons (g ∷ h ∷ gs) = hex_string g ++ (b':' ∷ join_colons (h ∷ gs))

ipv6_string : ℕ → Text
unfolding groups_of longest_zeros join_colons
ipv6_string a =
    let gs = groups_of 8 a in
    let zeros = longest_zeros 0 gs (0, 0) in
    if zeros.1 == 0
    then join_colons gs
    else join_colons (take zeros.0 gs) ++ codes "::" ++ join_colons (drop (zeros.0 + zeros.1) gs)

unfoldable pub addr_string : Addr → Text
unfolding ipv4_string ipv6_string
addr_string (v4 a) = ipv4_string a
addr_string (v6 a) =
    if a / 0x1_0000_0000 == 0xffff
    then codes "::ffff:" ++ ipv4_string (a % 0x1_0000_0000)
    else ipv6_string a

-- `Prefix.String`
unfoldable pub prefix_string : Prefix → Text
unfolding addr_string decimal_string
prefix_string p = addr_string p.addr ++ (b'/' ∷ decimal_string p.bits)
