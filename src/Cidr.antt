-- ===== src/Cidr.antt =====
-- `ReduceCIDRs` of internal/helper/google.go.
pub mod Order
pub mod Cover
pub mod Reduce
use captcha_protect.Base.{
  ℕ, Bool, true, false, not, ◌&&◌, List, [], ◌∷◌, ◌++◌, map, any, Option, none, some,
}
use captcha_protect.Base.{Text, if◌then◌else◌, ◌==◌, leb, ltb}
use captcha_protect.Net.{
  Prefix, is4, addr_less, masked, prefix_contains, parse_prefix, prefix_string,
}

-- The masked prefixes of the texts that parse; the others are logged and skipped.
unfoldable pub parse_prefixes : List Text → List Prefix
parse_prefixes [] = []
parse_prefixes (cidr ∷ cidrs) =
    let rest = parse_prefixes cidrs in
    elim (parse_prefix cidr) [ none ↦ rest | some prefix ↦ masked prefix ∷ rest ]

-- The comparison given to `sort.Slice`: IPv4 first, then the broader, then the lower address.
unfoldable pub less : Prefix → Prefix → Bool
less a b =
    if is4 a.addr && not (is4 b.addr)
    then true
    else if not (is4 a.addr) && is4 b.addr
    then false
    else if not (a.bits == b.bits)
    then ltb a.bits b.bits
    else addr_less a.addr b.addr

-- Sorting by insertion. The comparison orders all prefixes, so every sort gives this list.
unfoldable pub insert : Prefix → List Prefix → List Prefix
insert p [] = p ∷ []
insert p (q ∷ qs) = let rest = insert p qs in if less q p then q ∷ rest else p ∷ q ∷ qs

unfoldable pub sort : List Prefix → List Prefix
unfolding insert
sort [] = []
sort (p ∷ ps) = insert p (sort ps)

-- The test of the inner loop.
unfoldable pub covers : Prefix → Prefix → Bool
covers existing candidate =
    leb existing.bits candidate.bits && prefix_contains existing candidate.addr

-- The outer loop.
unfoldable pub reduce_loop : List Prefix → List Prefix → List Prefix
reduce_loop reduced [] = reduced
reduce_loop reduced (candidate ∷ prefixes) =
    reduce_loop
      (if any (λ existing. covers existing candidate) reduced
        then reduced
        else reduced ++ (candidate ∷ []))
      prefixes

unfoldable pub reduce_prefixes : List Prefix → List Prefix
unfolding reduce_loop sort
reduce_prefixes prefixes = reduce_loop [] (sort prefixes)

unfoldable pub reduce_cidrs : List Text → List Text
unfolding reduce_prefixes parse_prefixes
reduce_cidrs cidrs = map prefix_string (reduce_prefixes (parse_prefixes cidrs))
