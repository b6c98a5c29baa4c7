-- ===== src/Net/Block.antt =====
-- `net.IPNet` with `net.ParseCIDR` and `Contains`.
use captcha_protect.Base.{ℕ, ◌+◌, ◌*◌, ◌/◌, ◌%◌, ◌^◌, ◌-◌, Bool, true, false, ◌&&◌, [], ◌∷◌}
use captcha_protect.Base.{
  Option, none, some, Text, index_byte, if◌then◌else◌, ◌==◌, leb, take, drop,
}
use captcha_protect.Base.{suc}
use captcha_protect.Net.Addrs.{Addr, v4, v6, parse_addr}

-- A network number and the ones of its mask; `short` is a mask of four bytes.
pub record IpNet : Type 0 where
  pub short : Bool
  pub network : ℕ
  pub ones : ℕ

-- The number whose first `ones` bits of `width` are those of `a`, the others 0.
abbrev pub mask_to : ℕ → ℕ → ℕ → ℕ
mask_to width ones a = a / 2 ^ (width - ones) * 2 ^ (width - ones)

-- `net.IP.To4`, on sixteen bytes.
unfoldable pub to4 : ℕ → Option ℕ
to4 ip = if ip / 0x1_0000_0000 == 0xffff then some (ip % 0x1_0000_0000) else none

-- `dtoi`: decimal digits, here with nothing after them; leading zeros are allowed.
digits_loop : ℕ → Text → Option ℕ
digits_loop n [] = some n
digits_loop n (c ∷ s) =
    let m = n * 10 + (c - 48) in
    let rest = digits_loop m s in if leb b'0' c && leb c b'9' && leb m 0xfffffe then rest else none

parse_digits : Text → Option ℕ
unfolding digits_loop
parse_digits [] = none
parse_digits (c ∷ s) = digits_loop 0 (c ∷ s)

block_of : Addr → ℕ → Option IpNet
block_of (v4 a) ones =
    if leb ones 32
    then some (record { short = true; network = mask_to 32 ones a; ones = ones })
    else none
block_of (v6 a) ones =
    if leb ones 128
    then some (record { short = false; network = mask_to 128 ones a; ones = ones })
    else none

unfoldable pub parse_cidr : Text → Option IpNet
unfolding parse_digits block_of parse_addr
parse_cidr s = elim (index_byte b'/' s) [
  | none ↦ none
  | some i ↦ elim (parse_addr (take i s)) [
    | none ↦ none
    | some a ↦ elim (parse_digits (drop (suc i) s)) [ none ↦ none | some ones ↦ block_of a ones ]
  ]
]

-- The network number in four bytes, with the ones of its mask, where it has such a form.
short_form : IpNet → Option (ℕ × ℕ)
unfolding to4
short_form n =
    if n.short
    then some (n.network, n.ones)
    else elim (to4 n.network) [ none ↦ none | some a ↦ some (a, n.ones - 96) ]

same_bits : ℕ → ℕ → ℕ → ℕ → Bool
same_bits width ones a b = a / 2 ^ (width - ones) == b / 2 ^ (width - ones)

-- `IPNet.Contains`, where `none` is the nil address.
unfoldable pub ip_net_contains : IpNet → Option ℕ → Bool
unfolding short_form same_bits
ip_net_contains n none = false
ip_net_contains n (some ip) = elim (short_form n) [
  | some (a, ones) ↦ elim (to4 ip) [ some b ↦ same_bits 32 ones a b | none ↦ false ]
  | none ↦ elim (to4 ip) [ some b ↦ false | none ↦ same_bits 128 n.ones n.network ip ]
]
