-- ===== src/Clock.antt =====
-- gamegine/include/engine/core/core_clock.h: ticks of the platform's clock, and their conversion to
-- nanoseconds. Reading the clock is the platform's; on Linux a tick is put together from the
-- seconds and nanoseconds that `clock_gettime` gives.
pub mod Conversion
pub mod Platforms
use gamegine.Common.{ℕ, ◌/◌, ◌%◌, true, false, leb, if◌then◌else◌, add64, sub64, mul64}

-- `Clock::now` on Linux, of the `timespec` that was read.
unfoldable pub now : ℕ → ℕ → ℕ
now tv_sec tv_nsec = add64 (mul64 tv_sec 1_000_000_000) tv_nsec

pub record TickConversion : Type 0 where
  pub start : ℕ
  pub num : ℕ
  pub denom : ℕ

-- `TickConversion::start_now` on Linux: one tick is one nanosecond.
unfoldable pub start_now : ℕ → ℕ → TickConversion
unfolding now
start_now tv_sec tv_nsec = record { start = now tv_sec tv_nsec; num = 1; denom = 1 }

unfoldable pub ns_elapsed_since_start : TickConversion → ℕ → ℕ
ns_elapsed_since_start c ticks =
    let elapsed = sub64 ticks c.start in
    let whole = mul64 (elapsed / c.denom) c.num in
    let part = mul64 (elapsed % c.denom) c.num / c.denom in
    if leb ticks c.start then 0 else add64 whole part
