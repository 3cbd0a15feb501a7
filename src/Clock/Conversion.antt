-- ===== src/Clock/Conversion.antt =====
-- The split conversion is exact.
use native.Mathlib.Nat.{
  mod-lt, mod-eq_of_lt, mod-add-div', lt_of_le_of_lt, mul-le-mul, mul-le-mul_right,
  add-mul-div_right, div-lt_iff_lt-mul,
}
use gamegine.Common.{
  ℕ, suc, ◌+◌, ◌-◌, ◌*◌, ◌/◌, ◌%◌, ◌^◌, ◌≤◌, ◌<◌, ◌≡◌, ap, arith, inl, inr, leb, Bool-cases,
  sub64-eq-sub,
}
use gamegine.Clock.{TickConversion, ns_elapsed_since_start}

-- The values that the class can hold: two 32-bit terms, the denominator never 0.
pub record IsConversion (c : TickConversion) : Type 0 where
  pub start_fits : c.start < 2 ^ 64
  pub num_fits : c.num < 2 ^ 32
  pub denom_fits : c.denom < 2 ^ 32
  pub denom_pos : 0 < c.denom

product-lt : (r n : ℕ) → r < 2 ^ 32 → n < 2 ^ 32 → r * n < 2 ^ 64
product-lt r n hr hn = omega (
  arith,
  mul-le-mul {n₁ = r} {m₁ = n} {n₂ = 2 ^ 32 - 1} {m₂ = 2 ^ 32 - 1} (omega arith) (omega arith),
)

-- The product of the remainder never overflows.
pub part-lt : (e n d : ℕ) → 0 < d → n < 2 ^ 32 → d < 2 ^ 32 → e % d * n < 2 ^ 64
part-lt e n d pos hn hd = product-lt (e % d) n (omega (arith, mod-lt e pos)) hn

le_of_sum : (a b n : ℕ) → a + b ≡ n → a ≤ n
le_of_sum a b n e = omega arith

-- Dividing a product is dividing it in two parts.
split : (e n d : ℕ) → 0 < d → e / d * n + e % d * n / d ≡ e * n / d
split e n d pos =
    omega
      (arith, add-mul-div_right (e % d * n) (e / d * n) {z = d} pos, ap (λ (t : ℕ). t / d) whole)
  where
    whole : e * n ≡ e % d * n + e / d * n * d
    whole = omega (arith, ap (λ (t : ℕ). t * n) (mod-add-div' e d))

-- Of the values that the class can hold, the conversion of a 64-bit tick gives the nanoseconds from
-- the start tick, rounded down, as long as that number fits in 64 bits; before the start it gives
-- 0.
pub ns_elapsed_since_start_lem :
    (c : TickConversion) (ticks : ℕ)
    → IsConversion c
    → ticks < 2 ^ 64
    → (ticks - c.start) * c.num / c.denom < 2 ^ 64
    → ns_elapsed_since_start c ticks ≡ (ticks - c.start) * c.num / c.denom
unfolding ns_elapsed_since_start
ns_elapsed_since_start_lem c ticks v ht fits = elim (Bool-cases (leb ticks c.start)) [
  | inl early ↦ let e : ticks - c.start ≡ 0 = ground arith in rw (early, e) (omega arith)
  | inr late ↦
      let after : c.start < ticks = ground arith in
      let e = sub64-eq-sub ticks c.start (omega arith) ht in
      let d = ticks - c.start in
      let sum = split d c.num c.denom v.denom_pos in
      let whole_fits = mod-eq_of_lt (lt_of_le_of_lt (le_of_sum _ _ _ sum) fits) in
      let part_fits = mod-eq_of_lt (part-lt d c.num c.denom v.denom_pos v.num_fits v.denom_fits) in
      rw (late, e, whole_fits, part_fits, sum) (mod-eq_of_lt fits)
]

div_mono : (x y d : ℕ) → 0 < d → x ≤ y → x / d ≤ y / d
div_mono x y d pos h =
    let above : y < suc (y / d) * d = (div-lt_iff_lt-mul pos).0 (omega arith) in
    let below : x / d < suc (y / d) = (div-lt_iff_lt-mul pos).1 (omega arith) in omega arith

-- A later tick never converts to an earlier time, as long as the later time fits in 64 bits.
ns_elapsed_since_start_mono :
    (c : TickConversion) (ticks later : ℕ)
    → IsConversion c
    → ticks ≤ later
    → later < 2 ^ 64
    → (later - c.start) * c.num / c.denom < 2 ^ 64
    → ns_elapsed_since_start c ticks ≤ ns_elapsed_since_start c later
ns_elapsed_since_start_mono c ticks later v h hl fits =
    let order =
      div_mono ((ticks - c.start) * c.num) ((later - c.start) * c.num) c.denom v.denom_pos
        (mul-le-mul_right c.num (omega arith)) in
    omega (
      arith,
      ns_elapsed_since_start_lem c later v hl fits,
      ns_elapsed_since_start_lem c ticks v (omega arith) (omega arith),
    )
