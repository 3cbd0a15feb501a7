-- ===== src/Common/Word.antt =====
-- Arithmetic of the fixed widths: `std::uint64_t` and `std::size_t`, both 64 bits wide, and casts.
use Prim.Native.Nat.{ℕ, ◌+◌, ◌-◌, ◌*◌, ◌/◌, ◌%◌, ◌^◌, ◌≤◌, ◌<◌}
use mathlib.Core.Path.{◌≡◌}
use native.Mathlib.Nat.{mod-eq_of_lt}
use native.Mathlib.Omega.{arith}

abbrev pub u64_mod : ℕ
u64_mod = 2 ^ 64

abbrev pub u32_mod : ℕ
u32_mod = 2 ^ 32

abbrev pub add64 : ℕ → ℕ → ℕ
add64 a b = (a + b) % u64_mod

-- `-` on ℕ stops at 0, so the modulus is added first.
abbrev pub sub64 : ℕ → ℕ → ℕ
sub64 a b = (a + u64_mod - b) % u64_mod

abbrev pub mul64 : ℕ → ℕ → ℕ
mul64 a b = a * b % u64_mod

-- `~x`
abbrev pub not64 : ℕ → ℕ
not64 x = u64_mod - 1 - x

abbrev pub shl64 : ℕ → ℕ → ℕ
shl64 x k = x * 2 ^ k % u64_mod

abbrev pub shr : ℕ → ℕ → ℕ
shr x k = x / 2 ^ k

-- A difference that does not go below 0 does not wrap.
pub sub64-eq-sub : (a b : ℕ) → b ≤ a → a < u64_mod → sub64 a b ≡ a - b
sub64-eq-sub a b h k = omega arith

-- A shift that fits does not lose bits.
pub shl64-eq_of_lt : (x k : ℕ) → x * 2 ^ k < u64_mod → shl64 x k ≡ x * 2 ^ k
shl64-eq_of_lt x k h = mod-eq_of_lt h
