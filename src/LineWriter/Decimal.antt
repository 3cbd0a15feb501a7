-- ===== src/LineWriter/Decimal.antt =====
-- The decimal text of a number, and `append_decimal`.
use native.Mathlib.Nat.{pow-suc}
use gamegine.Common.{
  ℕ, zero, suc, ◌+◌, ◌-◌, ◌*◌, ◌/◌, ◌%◌, ◌^◌, ◌≤◌, ◌<◌, max, true, false, ◌&&◌, inl, inr, [], ◌∷◌,
  ◌++◌, ◌≡◌, ◌≢◌, ap, ◌∙◌, arith, Text, length, replicate, get_or, All, ltb, ◌==◌, if◌then◌else◌,
  sub64-eq-sub, Bool-cases, ltb→lt, ltb_false→le, lt→ltb, length-append, length-replicate,
  append_assoc,
}
use gamegine.Common.Int.{ℤ}
use gamegine.LineWriter.Defs.{LineWriter, append, append_repeated, append_char}
use gamegine.LineWriter.Numbers.{digits_before, decimal, to_chars, append_decimal}
use gamegine.LineWriter.Shows.{Shows, append-Shows}
use gamegine.LineWriter.Pads.{append_repeated-Shows, append_char-Shows}

abbrev pub IsDigit : ℕ → Type 0
IsDigit c = (b'0' ≤ c) × (c ≤ b'9')

-- The number that decimal digits spell behind `n`.
abbrev pub value : ℕ → Text → ℕ
value n [] = n
value n (c ∷ t) = value (n * 10 + (c - b'0')) t

value-digits_before : (f n : ℕ) (out : Text) → n < f → value 0 (digits_before f n out) ≡ value n out
unfolding digits_before
value-digits_before zero n out h = absurd (omega arith)
value-digits_before (suc f) n out h = elim (Bool-cases (ltb n 10)) [
  | inl e ↦
      let e' : 0 + (b'0' + n % 10 - b'0') ≡ n = omega (arith, ltb→lt n 10 e) in
      rw e (ap (λ (k : ℕ). value k out) e')
  | inr e ↦
      let e' : n / 10 * 10 + (b'0' + n % 10 - b'0') ≡ n = omega arith in
      rw e (
        value-digits_before f (n / 10) ((b'0' + n % 10) ∷ out) (omega (arith, ltb_false→le n 10 e))
        ∙ rw e')
]

digits_before-All : (f n : ℕ) (out : Text) → All IsDigit out → All IsDigit (digits_before f n out)
unfolding digits_before
digits_before-All zero n out h = h
digits_before-All (suc f) n out h = elim (Bool-cases (ltb n 10)) [
  | inl e ↦ rw e ((omega arith, omega arith), h)
  | inr e ↦
      rw e (digits_before-All f (n / 10) ((b'0' + n % 10) ∷ out) ((omega arith, omega arith), h))
]

-- The first digit, which is 0 only for the number 0.
first_digit :
    (f n : ℕ) (out : Text)
    → n < f
    → (b'0' ≤ get_or (digits_before f n out) 0 0)
      × (get_or (digits_before f n out) 0 0 ≤ b'9')
      × (0 < n → b'0' < get_or (digits_before f n out) 0 0)
unfolding digits_before
first_digit zero n out h = absurd (omega arith)
first_digit (suc f) n out h = elim (Bool-cases (ltb n 10)) [
  | inl e ↦ rw e (omega arith, omega arith, λ p. omega (arith, ltb→lt n 10 e))
  | inr e ↦
      let (lo, hi, pos) =
        first_digit f (n / 10) ((b'0' + n % 10) ∷ out) (omega (arith, ltb_false→le n 10 e)) in
      rw e (lo, hi, λ p. pos (omega (arith, ltb_false→le n 10 e)))
]

length-digits_before :
    (f n k : ℕ) (out : Text)
    → n < 10 ^ suc k
    → n < f
    → length (digits_before f n out) ≤ suc k + length out
unfolding digits_before
length-digits_before zero n k out b h = absurd (omega arith)
length-digits_before (suc f) n zero out b h =
    let small : ltb n 10 ≡ true = lt→ltb n 10 (omega arith) in rw small (omega arith)
length-digits_before (suc f) n (suc k) out b h = elim (Bool-cases (ltb n 10)) [
  | inl e ↦ rw e (omega arith)
  | inr e ↦ rw e (
      omega (
        arith,
        length-digits_before f (n / 10) k ((b'0' + n % 10) ∷ out)
            (omega (arith, pow-suc 10 (suc k))) (omega (arith, ltb_false→le n 10 e)),
      ))
]

-- The decimal text of a number holds digits only, spells the number, and has no leading zero.
pub decimal_lem :
    (n : ℕ)
    → All IsDigit (decimal n) × (value 0 (decimal n) ≡ n) × (0 < n → b'0' < get_or (decimal n) 0 0)
unfolding decimal
decimal_lem n = (
  digits_before-All (suc n) n [] tt,
  value-digits_before (suc n) n [] (omega arith),
  (first_digit (suc n) n [] (omega arith)).2,
)

-- The text that `append_decimal` writes of a number holds decimal digits only and spells the number.
pub value-decimal : (n : ℕ) → All IsDigit (decimal n) × (value 0 (decimal n) ≡ n)
value-decimal n = ((decimal_lem n).0, (decimal_lem n).1)

-- A number below `10 ^ k` has at most `k` digits.
pub length-decimal : (n k : ℕ) → n < 10 ^ suc k → length (decimal n) ≤ suc k
unfolding decimal
length-decimal n k h = omega (arith, length-digits_before (suc n) n k [] h (omega arith))

pub not_sign : (n : ℕ) → get_or (decimal n) 0 0 ≢ b'-'
unfolding decimal
not_sign n e = omega (arith, (first_digit (suc n) n [] (omega arith)).0)

-- `value` right-aligned in `width`; with a fill of '0' the minus sign stays in front of the zeros.
abbrev pub aligned : ℤ → ℕ → ℕ → Text
aligned (ℤ.pos n) width fill = replicate (width - length (decimal n)) fill ++ decimal n
aligned (ℤ.negsuc n) width fill =
    let padding = replicate (width - length (to_chars (ℤ.negsuc n))) fill in
    if fill == b'0' then (b'-' ∷ padding) ++ decimal (n + 1) else padding ++ to_chars (ℤ.negsuc n)

module _ {w : LineWriter} {s : Text} (v : Shows w s) where
  unsigned_case :
      (t : Text) (fill p : ℕ)
      → Shows (append (append_repeated w fill p) t) (s ++ (replicate p fill ++ t))
  unsigned_case t fill p =
      rw (← append_assoc s (replicate p fill) t) (append-Shows t (append_repeated-Shows fill p v))

  signed_case :
      (t : Text) (fill p : ℕ)
      → Shows
          (append (append_repeated (append_char w b'-') fill p) t)
          (s ++ ((b'-' ∷ replicate p fill) ++ t))
  signed_case t fill p =
      rw
        (
          ← append_assoc s (b'-' ∷ replicate p fill) t,
          ← append_assoc s (b'-' ∷ []) (replicate p fill),
        )
        (append-Shows t (append_repeated-Shows fill p (append_char-Shows b'-' v)))

  -- Of a writer that shows `s`, `append_decimal` makes one that shows `s` and the number, right-aligned
  -- in the width, a fill of '0' going between the sign and the digits, for every width of 64 bits.
  pub append_decimal-Shows :
      (z : ℤ) (width fill : ℕ)
      → width < 2 ^ 64
      → Shows (append_decimal w z width fill) (s ++ aligned z width fill)
  unfolding append_decimal
  append_decimal-Shows (ℤ.pos n) width fill h = elim (Bool-cases (ltb (length (decimal n)) width)) [
    | inl e ↦
        rw (e, plain, sub64-eq-sub width (length (decimal n)) (omega (arith, ltb→lt _ _ e)) h)
          (unsigned_case (decimal n) fill (width - length (decimal n)))
    | inr e ↦
        let e' : width - length (decimal n) ≡ 0 = omega (arith, ltb_false→le _ _ e) in
        rw (e, e') (append-Shows (decimal n) v)
  ]
    where
      plain : ((fill == b'0') && (get_or (decimal n) 0 0 == b'-')) ≡ false
      plain = ground (arith, not_sign n)
  append_decimal-Shows (ℤ.negsuc n) width fill h = elim (Bool-cases (ltb (length text) width)) [
    | inl e ↦
        let e' = sub64-eq-sub width (length text) (omega (arith, ltb→lt _ _ e)) h in
        elim (Bool-cases (fill == b'0')) [
          | inl q ↦ rw (e, q, e') (signed_case (decimal (n + 1)) fill (width - length text))
          | inr q ↦ rw (e, q, e') (unsigned_case text fill (width - length text))
        ]
    | inr e ↦
        let e' : width - length text ≡ 0 = omega (arith, ltb_false→le _ _ e) in
        elim (Bool-cases (fill == b'0')) [
          | inl q ↦ rw (e, q, e') (append-Shows text v)
          | inr q ↦ rw (e, q, e') (append-Shows text v)
        ]
  ]
    where
      text : Text
      text = to_chars (ℤ.negsuc n)

-- The column is exactly as wide as asked, or as the number if that is wider.
pub length-aligned :
    (z : ℤ) (width fill : ℕ) → length (aligned z width fill) ≡ max width (length (to_chars z))
length-aligned (ℤ.pos n) width fill = omega (
  arith,
  length-append (replicate (width - length (decimal n)) fill) (decimal n),
  length-replicate (width - length (decimal n)) fill,
)
length-aligned (ℤ.negsuc n) width fill = ground (
  arith,
  length-append (replicate (width - suc (length (decimal (n + 1)))) fill) (decimal (n + 1)),
  length-append (replicate (width - suc (length (decimal (n + 1)))) fill) (b'-' ∷ decimal (n + 1)),
  length-replicate (width - suc (length (decimal (n + 1)))) fill,
)
