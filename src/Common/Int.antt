-- ===== src/Common/Int.antt =====
-- Signed integers over the native numbers, and the 32-bit ones as bit patterns.
use Prim.Native.Nat.{ℕ, ◌-◌, ◌^◌, ◌<◌}
use mathlib.Core.Path.{◌≡◌}
use native.Mathlib.Omega.{arith}
use gamegine.Common.Tests.{ltb, if◌then◌else◌}

-- `negsuc n` is -(n + 1).
pub data ℤ : Type 0 where
  pos : ℕ → ℤ
  negsuc : ℕ → ℤ

-- The range of `std::int32_t`.
abbrev pub IsInt32 : ℤ → Type 0
IsInt32 (ℤ.pos n) = n < 2 ^ 31
IsInt32 (ℤ.negsuc n) = n < 2 ^ 31

-- `std::bit_cast` between `std::int32_t` and `std::uint32_t`, in two's complement.
abbrev pub to_bits32 : ℤ → ℕ
to_bits32 (ℤ.pos n) = n
to_bits32 (ℤ.negsuc n) = 2 ^ 32 - 1 - n

abbrev pub of_bits32 : ℕ → ℤ
of_bits32 w = if ltb w (2 ^ 31) then ℤ.pos w else ℤ.negsuc (2 ^ 32 - 1 - w)

pub of_bits32-to_bits32 : (z : ℤ) → IsInt32 z → of_bits32 (to_bits32 z) ≡ z
of_bits32-to_bits32 (ℤ.pos n) h = ground arith
of_bits32-to_bits32 (ℤ.negsuc n) h = ground arith

pub to_bits32-of_bits32 : (w : ℕ) → w < 2 ^ 32 → to_bits32 (of_bits32 w) ≡ w
to_bits32-of_bits32 w h = ground arith

pub to_bits32-lt : (z : ℤ) → IsInt32 z → to_bits32 z < 2 ^ 32
to_bits32-lt (ℤ.pos n) h = omega arith
to_bits32-lt (ℤ.negsuc n) h = omega arith
