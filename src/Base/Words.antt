-- ===== src/Base/Words.antt =====
-- Go's 64-bit integers as bit patterns, numbers below 2^64 in two's complement.
use Prim.Native.Nat.{ℕ, ◌+◌, ◌-◌, ◌%◌, ◌≤◌, ◌<◌}
use mathlib.Core.Path.{◌≡◌}
use mathlib.Core.Logic.{◌↔◌}
use mathlib.Core.Bool.{Bool, true}
use native.Mathlib.Omega.{arith}
use captcha_protect.Base.Tests.{ltb, leb}

-- 2^64, and 2^63: the patterns from `i64_half` on stand for negative numbers.
abbrev pub u64_mod : ℕ
u64_mod = 0x1_0000_0000_0000_0000

abbrev pub i64_half : ℕ
i64_half = 0x8000_0000_0000_0000

abbrev pub add64 : ℕ → ℕ → ℕ
add64 a b = (a + b) % u64_mod

abbrev pub sub64 : ℕ → ℕ → ℕ
sub64 a b = (a + u64_mod - b) % u64_mod

-- The signed orders of two patterns.
abbrev pub slt64 : ℕ → ℕ → Bool
slt64 a b = ltb ((a + i64_half) % u64_mod) ((b + i64_half) % u64_mod)

abbrev pub sle64 : ℕ → ℕ → Bool
sle64 a b = leb ((a + i64_half) % u64_mod) ((b + i64_half) % u64_mod)

-- The pattern of a non-negative number.
abbrev pub IsNonneg : ℕ → Type 0
IsNonneg a = a < i64_half

pub sle64_iff : (a b : ℕ) → IsNonneg a → IsNonneg b → (sle64 a b ≡ true) ↔ (a ≤ b)
sle64_iff a b ha hb = ground arith

pub slt64_iff : (a b : ℕ) → IsNonneg a → IsNonneg b → (slt64 a b ≡ true) ↔ (a < b)
slt64_iff a b ha hb = ground arith
