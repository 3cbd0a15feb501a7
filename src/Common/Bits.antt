-- ===== src/Common/Bits.antt =====
-- The laws of `&`, `|` and `^` at variables: they act on each field of a word by itself, at every
-- width. Each native operation is a recursion on binary digits with a count; the count is dropped
-- first, so that all three obey one equation for the lowest digit.
use Prim.Native.Nat.{
  ℕ, zero, suc, ◌+◌, ◌-◌, ◌*◌, ◌/◌, ◌%◌, ◌^◌, ◌≤◌, ◌<◌, min, max, bit_and, bit_or, bit_xor, digits,
  bitwise, differ, bit_and-bitwise, bit_or-bitwise, bit_xor-bitwise,
}
use mathlib.Core.Path.{◌≡◌, refl, ap, ap₂, ◌∙◌}
use native.Mathlib.Nat.{pow-suc, one-le-pow}
use native.Mathlib.Omega.{arith}

module _ (alone : ℕ → ℕ) (pair : ℕ → ℕ → ℕ) where
  -- Any two counts that reach the number give one result.
  digits_count : (i j x y : ℕ) → x ≤ i → x ≤ j → digits alone pair i x y ≡ digits alone pair j x y
  digits_count zero zero x y hi hj = refl
  digits_count (suc i) zero zero y hi hj = refl
  digits_count (suc i) zero (suc x) y hi hj = absurd (omega arith)
  digits_count zero (suc j) zero y hi hj = refl
  digits_count zero (suc j) (suc x) y hi hj = absurd (omega arith)
  digits_count (suc i) (suc j) zero y hi hj = refl
  digits_count (suc i) (suc j) (suc x) y hi hj =
      rw (digits_count i j (suc x / 2) (y / 2) (omega arith) (omega arith))

  -- Of a number that is not 0, the lowest digit and the rest.
  lowest_digit :
      (x y : ℕ)
      → 0 < x
      → bitwise alone pair x y ≡ bitwise alone pair (x / 2) (y / 2) * 2 + pair (x % 2) (y % 2)
  lowest_digit zero y pos = absurd (omega arith)
  lowest_digit (suc x) y pos =
      let half = suc x / 2 in
      omega (arith, digits_count x half half (y / 2) (omega arith) (omega arith))

pub bit_and_step : (x y : ℕ) → bit_and x y ≡ bit_and (x / 2) (y / 2) * 2 + min (x % 2) (y % 2)
bit_and_step zero y = simp bit_and-bitwise (omega arith)
bit_and_step (suc x) y = simp bit_and-bitwise (lowest_digit (λ _. 0) min (suc x) y (omega arith))

pub bit_or_step : (x y : ℕ) → bit_or x y ≡ bit_or (x / 2) (y / 2) * 2 + max (x % 2) (y % 2)
bit_or_step zero y = simp bit_or-bitwise (omega arith)
bit_or_step (suc x) y = simp bit_or-bitwise (lowest_digit (λ d. d) max (suc x) y (omega arith))

pub bit_xor_step : (x y : ℕ) → bit_xor x y ≡ bit_xor (x / 2) (y / 2) * 2 + differ (x % 2) (y % 2)
bit_xor_step zero y = simp bit_xor-bitwise (omega arith)
bit_xor_step (suc x) y = simp bit_xor-bitwise (lowest_digit (λ d. d) differ (suc x) y (omega arith))

-- Halving a number with a high field `p` and a low field `s` halves the low field.
half_field : (k p s : ℕ) → (p * 2 ^ suc k + s) / 2 ≡ p * 2 ^ k + s / 2
half_field k p s = omega (arith, ap (λ (t : ℕ). p * t) (pow-suc 2 k))

odd_field : (k p s : ℕ) → (p * 2 ^ suc k + s) % 2 ≡ s % 2
odd_field k p s = omega (arith, ap (λ (t : ℕ). p * t) (pow-suc 2 k))

half_lt : (k r : ℕ) → r < 2 ^ suc k → r / 2 < 2 ^ k
half_lt k r h = omega (arith, pow-suc 2 k)

-- An operation with such an equation acts on the low `k` digits and on the rest by themselves.
module _ (op f : ℕ → ℕ → ℕ) (step : (a b : ℕ) → op a b ≡ op (a / 2) (b / 2) * 2 + f (a % 2) (b % 2))
    (at_zero : op 0 0 ≡ 0) where
  fields_step :
      (k q r q' r' : ℕ)
      → op (q * 2 ^ suc k + r) (q' * 2 ^ suc k + r')
        ≡ op (q * 2 ^ k + r / 2) (q' * 2 ^ k + r' / 2) * 2 + f (r % 2) (r' % 2)
  fields_step k q r q' r' =
      step (q * 2 ^ suc k + r) (q' * 2 ^ suc k + r')
      ∙ rw (half_field k q r, half_field k q' r', odd_field k q r, odd_field k q' r')

  fieldwise :
      (k q r q' r' : ℕ)
      → r < 2 ^ k
      → r' < 2 ^ k
      → op (q * 2 ^ k + r) (q' * 2 ^ k + r') ≡ op q q' * 2 ^ k + op r r'
  fieldwise zero q r q' r' h h' =
      let e : q * 2 ^ zero + r ≡ q = omega arith in
      let e' : q' * 2 ^ zero + r' ≡ q' = omega arith in
      let z : r ≡ 0 = omega arith in
      let z' : r' ≡ 0 = omega arith in ap₂ op e e' ∙ omega (arith, ap₂ op z z', at_zero)
  fieldwise (suc k) q r q' r' h h' = omega (
    arith,
    fields_step k q r q' r',
    step r r',
    ap (λ (t : ℕ). op q q' * t) (pow-suc 2 k),
    fieldwise k q (r / 2) q' (r' / 2) (half_lt k r h) (half_lt k r' h'),
  )

pub bit_and_fields :
    (k q r q' r' : ℕ)
    → r < 2 ^ k
    → r' < 2 ^ k
    → bit_and (q * 2 ^ k + r) (q' * 2 ^ k + r') ≡ bit_and q q' * 2 ^ k + bit_and r r'
bit_and_fields = fieldwise bit_and min bit_and_step refl

pub bit_or_fields :
    (k q r q' r' : ℕ)
    → r < 2 ^ k
    → r' < 2 ^ k
    → bit_or (q * 2 ^ k + r) (q' * 2 ^ k + r') ≡ bit_or q q' * 2 ^ k + bit_or r r'
bit_or_fields = fieldwise bit_or max bit_or_step refl

pub bit_xor_fields :
    (k q r q' r' : ℕ)
    → r < 2 ^ k
    → r' < 2 ^ k
    → bit_xor (q * 2 ^ k + r) (q' * 2 ^ k + r') ≡ bit_xor q q' * 2 ^ k + bit_xor r r'
bit_xor_fields = fieldwise bit_xor differ bit_xor_step refl

zero-bit_and : (b : ℕ) → bit_and 0 b ≡ 0
zero-bit_and b = bit_and-bitwise 0 b

zero-bit_or : (b : ℕ) → bit_or 0 b ≡ b
zero-bit_or b = bit_or-bitwise 0 b

-- The other side takes an induction, by halving, with the number of halvings as the count.
bit_and-zero_upto : (n a : ℕ) → a ≤ n → bit_and a 0 ≡ 0
bit_and-zero_upto n zero h = refl
bit_and-zero_upto zero (suc a) h = absurd (omega arith)
bit_and-zero_upto (suc n) (suc a) h =
    omega (arith, bit_and_step (suc a) 0, bit_and-zero_upto n (suc a / 2) (omega arith))

pub bit_and-zero : (a : ℕ) → bit_and a 0 ≡ 0
bit_and-zero a = bit_and-zero_upto a a (omega arith)

bit_or-zero_upto : (n a : ℕ) → a ≤ n → bit_or a 0 ≡ a
bit_or-zero_upto n zero h = refl
bit_or-zero_upto zero (suc a) h = absurd (omega arith)
bit_or-zero_upto (suc n) (suc a) h =
    omega (arith, bit_or_step (suc a) 0, bit_or-zero_upto n (suc a / 2) (omega arith))

pub bit_or-zero : (a : ℕ) → bit_or a 0 ≡ a
bit_or-zero a = bit_or-zero_upto a a (omega arith)

-- `r | (q << k)` and `(q << k) | r` are sums where `r` fits `k` bits.
pub bit_or_low : (k q r : ℕ) → r < 2 ^ k → bit_or r (q * 2 ^ k) ≡ q * 2 ^ k + r
bit_or_low k q r h =
    let e : 0 * 2 ^ k + r ≡ r = omega arith in
    let e' : q * 2 ^ k + 0 ≡ q * 2 ^ k = omega arith in
    omega (
      arith,
      ap₂ bit_or e e',
      bit_or_fields k 0 r q 0 h (one-le-pow k 2 (omega arith)),
      ap (λ (t : ℕ). t * 2 ^ k) (zero-bit_or q),
      bit_or-zero r,
    )

pub bit_or_high : (k q r : ℕ) → r < 2 ^ k → bit_or (q * 2 ^ k) r ≡ q * 2 ^ k + r
bit_or_high k q r h =
    let e : q * 2 ^ k + 0 ≡ q * 2 ^ k = omega arith in
    let e' : 0 * 2 ^ k + r ≡ r = omega arith in
    omega (
      arith,
      ap₂ bit_or e e',
      bit_or_fields k q 0 0 r (one-le-pow k 2 (omega arith)) h,
      ap (λ (t : ℕ). t * 2 ^ k) (bit_or-zero q),
      zero-bit_or r,
    )

-- A number below `2 ^ k` survives a mask of `k` ones.
bit_and_ones : (k r : ℕ) → r < 2 ^ k → bit_and r (2 ^ k - 1) ≡ r
bit_and_ones zero r h = omega (arith, bit_and-zero r)
bit_and_ones (suc k) r h =
    let e : (2 ^ suc k - 1) / 2 ≡ 2 ^ k - 1 = omega (arith, pow-suc 2 k) in
    let o : (2 ^ suc k - 1) % 2 ≡ 1 = omega (arith, pow-suc 2 k, one-le-pow k 2) in
    omega (
      arith,
      bit_and_step r (2 ^ suc k - 1),
      ap (bit_and (r / 2)) e,
      bit_and_ones k (r / 2) (half_lt k r h),
      o,
    )

-- A mask of `k` ones is the remainder by `2 ^ k`.
pub bit_and_mask : (k a : ℕ) → bit_and a (2 ^ k - 1) ≡ a % 2 ^ k
bit_and_mask k a =
    let p : 1 ≤ 2 ^ k = one-le-pow k 2 (omega arith) in
    let e : a / 2 ^ k * 2 ^ k + a % 2 ^ k ≡ a = omega arith in
    let e' : 0 * 2 ^ k + (2 ^ k - 1) ≡ 2 ^ k - 1 = omega arith in
    let small : a % 2 ^ k < 2 ^ k = omega arith in
    omega (
      arith,
      ap₂ bit_and e e',
      bit_and_fields k (a / 2 ^ k) (a % 2 ^ k) 0 (2 ^ k - 1) small (omega arith),
      ap (λ (t : ℕ). t * 2 ^ k) (bit_and-zero (a / 2 ^ k)),
      bit_and_ones k (a % 2 ^ k) small,
    )

bit_and-le_upto : (n a b : ℕ) → a ≤ n → bit_and a b ≤ a
bit_and-le_upto n zero b h = omega (arith, zero-bit_and b)
bit_and-le_upto zero (suc a) b h = absurd (omega arith)
bit_and-le_upto (suc n) (suc a) b h =
    omega (arith, bit_and_step (suc a) b, bit_and-le_upto n (suc a / 2) (b / 2) (omega arith))

-- A mask takes bits away.
pub bit_and-le : (a b : ℕ) → bit_and a b ≤ a
bit_and-le a b = bit_and-le_upto a a b (omega arith)
