-- ===== src/Net/Addrs.antt =====
-- `netip.ParseAddr` for addresses without a zone, and `net.ParseIP`, which refuses zones.
use captcha_protect.Base.{ℕ, suc, zero, ◌+◌, ◌*◌, ◌/◌, ◌%◌, ◌^◌, ◌-◌, Bool, true, false, ◌&&◌, ◌||◌}
use captcha_protect.Base.{List, [], ◌∷◌, ◌++◌, Option, none, some, Text, split, parse_decimal}
use captcha_protect.Base.{if◌then◌else◌, ◌==◌, leb, ltb, length, any, not}

-- `netip.Addr`: a 32-bit or a 128-bit number.
pub data Addr : Type 0 where
  v4 v6 : ℕ → Addr

-- Four decimal octets.
octets : List Text → Option Addr
octets (a ∷ b ∷ c ∷ d ∷ []) = elim (parse_decimal 255 a) [
  | none ↦ none
  | some i ↦ elim (parse_decimal 255 b) [
    | none ↦ none
    | some j ↦ elim (parse_decimal 255 c) [
      | none ↦ none
      | some k ↦ elim (parse_decimal 255 d) [
        | none ↦ none
        | some l ↦ some (v4 (((i * 256 + j) * 256 + k) * 256 + l))
      ]
    ]
  ]
]
octets _ = none

unfoldable pub parse_ipv4 : Text → Option Addr
unfolding octets split
parse_ipv4 s = octets (split b'.' s)

abbrev hex_digit : ℕ → Option ℕ
hex_digit c =
    if leb b'0' c && leb c b'9'
    then some (c - 48)
    else if leb b'a' c && leb c b'f'
    then some (c - 87)
    else if leb b'A' c && leb c b'F'
    then some (c - 55)
    else none

-- The hex digits at the front of a text: their number, their value, and what follows.
hex_run : ℕ → ℕ → Text → record { digits : ℕ; value : ℕ; rest : Text }
hex_run n acc [] = record { digits = n; value = acc; rest = [] }
hex_run n acc (c ∷ s) = elim (hex_digit c) [
  | none ↦ record { digits = n; value = acc; rest = c ∷ s }
  | some d ↦ hex_run (n + 1) (acc * 16 + d) s
]

abbrev groups_value : List ℕ → ℕ → ℕ
groups_value [] acc = acc
groups_value (g ∷ gs) acc = groups_value gs (acc * 65536 + g)

-- The groups before and after `::`, if there was one.
record Groups : Type 0 where
  before : List ℕ
  after : Option (List ℕ)

abbrev push_group : Groups → ℕ → Groups
push_group (g) n = elim g.after [
  | none ↦ record { before = g.before ++ (n ∷ []); after = none }
  | some a ↦ record { before = g.before; after = some (a ++ (n ∷ [])) }
]

abbrev group_count : Groups → ℕ
group_count g = length g.before + elim g.after [ none ↦ 0 | some a ↦ length a ]

-- All eight groups, or fewer with `::`, which stands for at least one group of zeros.
finish_groups : Groups → Option Addr
finish_groups g = elim g.after [
  | none ↦ if length g.before == 8 then some (v6 (groups_value g.before 0)) else none
  | some a ↦
      let missing = 8 - (length g.before + length a) in
      if ltb (group_count g) 8
      then some (v6 (groups_value a (groups_value g.before 0 * 65536 ^ missing)))
      else none
]

-- A trailing IPv4 address takes the place of two groups.
embed_v4 : Groups → Text → Option Addr
unfolding parse_ipv4 finish_groups
embed_v4 g s = elim (parse_ipv4 s) [
  | some (v4 a) ↦ finish_groups (push_group (push_group g (a / 65536)) (a % 65536))
  | some (v6 a) ↦ none
  | none ↦ none
]

abbrev no_ellipsis : Groups → Bool
no_ellipsis g = elim g.after [ none ↦ true | some a ↦ false ]

-- The loop over the groups; eight rounds fill the address.
groups_loop : ℕ → Groups → Text → Option Addr
unfolding finish_groups embed_v4 hex_run
groups_loop zero g [] = finish_groups g
groups_loop zero g (c ∷ s) = none
groups_loop (suc fuel) g s =
    let run = hex_run 0 0 s in
    let g' = push_group g run.value in
    let more = λ (t : Text). groups_loop fuel g' t in
    let split_run = λ (t : Text). groups_loop fuel (record g' { after = some [] }) t in
    if run.digits == 0 || leb 5 run.digits then none else elim run.rest [
      | [] ↦ finish_groups g'
      | c ∷ t ↦
          if c == b'.'
          then (if (no_ellipsis g && not (group_count g == 6)) || ltb 6 (group_count g)
              then none
              else embed_v4 g s)
          else if not (c == b':')
          then none
          else elim t [
            | [] ↦ none
            | d ∷ u ↦
                if not (d == b':')
                then more (d ∷ u)
                else if not (no_ellipsis g)
                then none
                else elim u [
                  | [] ↦ finish_groups (record g' { after = some [] })
                  | e ∷ w ↦ split_run (e ∷ w)
                ]
          ]
    ]

unfoldable pub parse_ipv6 : Text → Option Addr
unfolding groups_loop
parse_ipv6 (c ∷ d ∷ s) =
    let plain = groups_loop 8 (record { before = []; after = none }) (c ∷ d ∷ s) in
    if c == b':' && d == b':'
    then elim s [
      | [] ↦ some (v6 0)
      | e ∷ t ↦ groups_loop 8 (record { before = []; after = some [] }) (e ∷ t)
    ]
    else plain
parse_ipv6 s = none

-- The first dot or colon decides between the two forms.
first_separator : Text → Text → Option Addr
unfolding parse_ipv4 parse_ipv6
first_separator s [] = none
first_separator s (c ∷ t) =
    let rest = first_separator s t in
    if c == b'.'
    then parse_ipv4 s
    else if c == b':'
    then parse_ipv6 s
    else if c == b'%'
    then none
    else rest

unfoldable pub parse_addr : Text → Option Addr
unfolding first_separator
parse_addr s = if any (λ c. c == b'%') s then none else first_separator s s

-- `net.IP`: sixteen bytes, an IPv4 address in its mapped form.
unfoldable pub as_ip16 : Addr → ℕ
as_ip16 (v4 a) = 0xffff_0000_0000 + a
as_ip16 (v6 a) = a

unfoldable pub parse_ip : Text → Option ℕ
unfolding parse_addr as_ip16
parse_ip s = elim (parse_addr s) [ none ↦ none | some a ↦ some (as_ip16 a) ]
