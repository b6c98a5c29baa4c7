-- ===== src/Cidr/Cover.antt =====
-- When one prefix covers another.
use Prim.Native.Nat.add
use native.Mathlib.Nat.{div-div-eq-div-mul, pow-suc}
use captcha_protect.Base.{
  ℕ, zero, suc, ◌+◌, ◌-◌, ◌/◌, ◌^◌, ◌≤◌, ◌≡◌, ◌↔◌, sym, ap, ◌∙◌, true, false,
}
use captcha_protect.Base.{arith}
use captcha_protect.Net.{Prefix, Addr, prefix_contains, addr_less, bit_len, value, network_of}
use captcha_protect.Cidr.{less, covers}

-- Shifting by a sum is shifting twice.
div-pow_add : (a i j : ℕ) → a / 2 ^ (j + i) ≡ a / 2 ^ i / 2 ^ j
div-pow_add a i zero = rw add.zero (omega arith)
div-pow_add a i (suc j) =
    rw (add.suc, pow-suc, pow-suc, ← div-div-eq-div-mul, ← div-div-eq-div-mul)
      (ap (λ n. n / 2) (div-pow_add a i j))

-- Two numbers that agree above bit `i` agree above each higher bit.
pub shift_mono : (i m a b : ℕ) → i ≤ m → a / 2 ^ i ≡ b / 2 ^ i → a / 2 ^ m ≡ b / 2 ^ m
shift_mono i m a b h e =
    let k : m ≡ (m - i) + i = omega arith in
    rw (k, div-pow_add, div-pow_add) (ap (λ n. n / 2 ^ (m - i)) e)

-- What `Prefix.Contains` says: the same kind of address, and the same network.
pub prefix_contains_iff :
    (p : Prefix) (a : Addr)
    → (prefix_contains p a ≡ true) ↔ (
        (bit_len p.addr ≡ bit_len a)
        × (network_of (bit_len p.addr) p.bits (value p.addr)
            ≡ network_of (bit_len p.addr) p.bits (value a)))
unfolding prefix_contains
prefix_contains_iff p a = (λ h. (ground arith, ground arith), λ h. ground arith)

pub covers_iff :
    (p q : Prefix) → (covers p q ≡ true) ↔ ((p.bits ≤ q.bits) × (prefix_contains p q.addr ≡ true))
unfolding covers
covers_iff p q = (λ h. (ground arith, ground arith), λ h. ground arith)

-- A prefix that covers another contains each of its addresses.
pub covers-contains :
    (existing candidate : Prefix) (a : Addr)
    → covers existing candidate ≡ true
    → prefix_contains candidate a ≡ true
    → prefix_contains existing a ≡ true
covers-contains e c a h k =
    let (broader, inside) = (covers_iff e c).0 h in
    let (kind, network) = (prefix_contains_iff e c.addr).0 inside in
    let (kind', network') = (prefix_contains_iff c a).0 k in
    let lifted : network_of (bit_len e.addr) e.bits (value c.addr)
        ≡ network_of (bit_len e.addr) e.bits (value a) =
      shift_mono (bit_len c.addr - c.bits) (bit_len e.addr - e.bits) (value c.addr) (value a)
        (omega arith) network' in
    (prefix_contains_iff e a).1 (kind ∙ kind', network ∙ lifted)

equal_bits :
    (p q : Prefix)
    → less q p ≡ false
    → bit_len q.addr ≡ bit_len p.addr
    → q.bits ≤ p.bits
    → p.bits ≡ q.bits
unfolding less addr_less
equal_bits p q sorted kind broader = ground arith

-- In the order of the sort only an earlier prefix can cover a later one, unless they cover each
-- other.
pub covers_of_covers_back :
    (p q : Prefix) → less q p ≡ false → covers q p ≡ true → covers p q ≡ true
covers_of_covers_back p q sorted h =
    let (broader, inside) = (covers_iff q p).0 h in
    let (kind, network) = (prefix_contains_iff q p.addr).0 inside in
    let same : p.bits ≡ q.bits = equal_bits p q sorted kind broader in
    (covers_iff p q).1
      (omega arith, (prefix_contains_iff p q.addr).1 (sym kind, rw (same, ← kind) (sym network)))
