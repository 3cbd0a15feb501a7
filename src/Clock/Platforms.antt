-- ===== src/Clock/Platforms.antt =====
-- The clock of each platform, and the conversion that starts at the tick it reads.
use gamegine.Common.{
  ℕ, ◌-◌, ◌*◌, ◌/◌, ◌%◌, ◌^◌, ◌<◌, ◌≡◌, refl, ◌&&◌, Option, none, some, ltb, ◌==◌, if◌then◌else◌,
  arith, Bool, true, false,
}
use gamegine.Common.Int.{ℤ}
use gamegine.Clock
use gamegine.Clock.{TickConversion, ns_elapsed_since_start}
use gamegine.Clock.Conversion.{IsConversion, ns_elapsed_since_start_lem}

-- What the system says: on Apple the ticks and the ratio of `mach_timebase_info`, on Linux the seconds and
-- nanoseconds, elsewhere the count of the steady clock and its ratio in nanoseconds.
pub data Reading : Type 0 where
  mach : (ticks numer denom : ℕ) → Reading
  timespec : (sec nsec : ℕ) → Reading
  steady : (count : ℤ) (num den : ℕ) → Reading

-- `static_cast<std::uint64_t>` of a signed number
abbrev pub to_u64 : ℤ → ℕ
to_u64 (ℤ.pos n) = n % 2 ^ 64
to_u64 (ℤ.negsuc n) = 2 ^ 64 - 1 - n % 2 ^ 64

unfoldable pub now_of : Reading → ℕ
now_of (mach ticks numer denom) = ticks
now_of (timespec sec nsec) = Clock.now sec nsec
now_of (steady count num den) = to_u64 count

-- The constructor; none where its assertion fails.
unfoldable pub make : ℕ → ℕ → ℕ → Option TickConversion
make start num denom =
    if denom == 0 then none else some (record { start = start; num = num; denom = denom })

-- The `static_assert` on the steady clock's ratio.
abbrev fits_32 : ℕ → ℕ → Bool
fits_32 num den = (ltb 0 num && ltb num (2 ^ 32)) && ltb den (2 ^ 32)

-- `TickConversion::start_now`; none where it does not compile or its assertion fails.
unfoldable pub start_now_of : Reading → Option TickConversion
unfolding make now_of
start_now_of (mach ticks numer denom) = make (now_of (mach ticks numer denom)) numer denom
start_now_of (timespec sec nsec) = make (now_of (timespec sec nsec)) 1 1
start_now_of (steady count num den) =
    if fits_32 num den then make (now_of (steady count num den)) num den else none

-- The ranges of the types, and a denominator as the system and `std::ratio` give it.
abbrev pub IsReading : Reading → Type 0
IsReading (mach ticks numer denom) =
    (ticks < 2 ^ 64) × (numer < 2 ^ 32) × (denom < 2 ^ 32) × (0 < denom)
IsReading (timespec sec nsec) = Unit
IsReading (steady count num den) = (0 < num) × (num < 2 ^ 32) × (0 < den) × (den < 2 ^ 32)

abbrev pub num_of : Reading → ℕ
num_of (mach ticks numer denom) = numer
num_of (timespec sec nsec) = 1
num_of (steady count num den) = num

abbrev pub denom_of : Reading → ℕ
denom_of (mach ticks numer denom) = denom
denom_of (timespec sec nsec) = 1
denom_of (steady count num den) = den

abbrev started : Reading → TickConversion
started r = record { start = now_of r; num = num_of r; denom = denom_of r }

started-IsConversion : (r : Reading) → IsReading r → IsConversion (started r)
unfolding now_of Clock.now
started-IsConversion (mach ticks numer denom) (t, n, d, p) = record {
  start_fits = t;
  num_fits = n;
  denom_fits = d;
  denom_pos = p;
}
started-IsConversion (timespec sec nsec) h = record {
  start_fits = omega arith;
  num_fits = omega arith;
  denom_fits = omega arith;
  denom_pos = omega arith;
}
started-IsConversion (steady (ℤ.pos count) num den) (_, n, p, d) = record {
  start_fits = omega arith;
  num_fits = n;
  denom_fits = d;
  denom_pos = p;
}
started-IsConversion (steady (ℤ.negsuc count) num den) (_, n, p, d) = record {
  start_fits = omega arith;
  num_fits = n;
  denom_fits = d;
  denom_pos = p;
}

start_now_of-started : (r : Reading) → IsReading r → start_now_of r ≡ some (started r)
unfolding start_now_of
start_now_of-started (mach ticks numer denom) (t, n, d, p) =
    let some_denom : (denom == 0) ≡ false = ground arith in rw some_denom refl
start_now_of-started (timespec sec nsec) h = refl
start_now_of-started (steady count num den) (q, n, p, d) =
    let some_den : (den == 0) ≡ false = ground arith in
    let a : ltb 0 num ≡ true = ground arith in
    let b : ltb num (2 ^ 32) ≡ true = ground arith in
    let c : ltb den (2 ^ 32) ≡ true = ground arith in rw (a, b, c, some_den) refl

-- On each platform, of numbers in the ranges of their types and a ratio whose denominator, and on
-- the steady clock whose numerator, is not 0, `start_now` makes a conversion, and it gives of any
-- 64-bit tick the nanoseconds since the tick that was read, rounded down, as long as that number
-- fits in 64 bits.
pub start_now_of_lem :
    (r : Reading) (ticks : ℕ)
    → IsReading r
    → ticks < 2 ^ 64
    → (ticks - now_of r) * num_of r / denom_of r < 2 ^ 64
    → (c : TickConversion) × (start_now_of r ≡ some c)
      × (ns_elapsed_since_start c ticks ≡ (ticks - now_of r) * num_of r / denom_of r)
start_now_of_lem r ticks h t fits = (
  started r,
  start_now_of-started r h,
  ns_elapsed_since_start_lem (started r) ticks (started-IsConversion r h) t fits,
)
