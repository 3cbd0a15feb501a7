-- ===== src/LineWriter/Hex.antt =====
-- The hex text of a number, and `append_hex`.
use native.Mathlib.Nat.{pow-suc, one-le-pow}
use gamegine.Common.{
  ℕ, zero, suc, ◌+◌, ◌-◌, ◌*◌, ◌/◌, ◌%◌, ◌^◌, ◌<◌, ◌≤◌, not, ◌&&◌, All, [], ◌∷◌, ◌++◌, ◌≡◌, refl,
  sym, ap, true, all_below, all_below_sound, ◌==◌, ==_iff, ◌∙◌, arith, Text, length, ltb,
  if◌then◌else◌, bit_and, shr,
}
use gamegine.Common.Bits.{bit_and_mask}
use gamegine.Common.Division.{mod-mul}
use gamegine.LineWriter.Defs.{LineWriter}
use gamegine.LineWriter.Numbers.{hex_digit, hex_loop, append_hex}
use gamegine.LineWriter.Shows.{Shows, append-Shows}

-- The number that a lower-case hex digit stands for.
abbrev pub digit_value : ℕ → ℕ
digit_value c = if ltb c b'a' then c - b'0' else c - b'a' + 10

-- The number that hex digits spell behind `n`.
abbrev pub hex_value : ℕ → Text → ℕ
hex_value n [] = n
hex_value n (c ∷ t) = hex_value (n * 16 + digit_value c) t

digit_values : all_below 16 (λ d. digit_value (hex_digit d) == d) ≡ true
unfolding all_below
digit_values = refl

digit_value-hex_digit : (d : ℕ) → d < 16 → digit_value (hex_digit d) ≡ d
digit_value-hex_digit d h = (==_iff _ d).0 (all_below_sound 16 _ d digit_values h)

pub hex_text : ℕ → ℕ → Text
hex_text n v = hex_loop n v []

-- A hex digit, or one of the characters between the numbers and the letters.
abbrev pub IsHexDigit : ℕ → Type 0
IsHexDigit c = (b'0' ≤ c) × (c ≤ b'f')

hex_digits : all_below 16 (λ d. not (ltb (hex_digit d) b'0') && not (ltb b'f' (hex_digit d))) ≡ true
unfolding all_below
hex_digits = refl

hex_digit-IsHexDigit : (d : ℕ) → d < 16 → IsHexDigit (hex_digit d)
hex_digit-IsHexDigit d h = within (hex_digit d) (all_below_sound 16 _ d hex_digits h)
  where
    within : (c : ℕ) → not (ltb c b'0') && not (ltb b'f' c) ≡ true → IsHexDigit c
    within c e = (ground arith, ground arith)

hex_loop-All : (n v : ℕ) (out : Text) → All IsHexDigit out → All IsHexDigit (hex_loop n v out)
unfolding hex_loop
hex_loop-All zero v out h = h
hex_loop-All (suc n) v out h =
    let low : bit_and v 0xF < 16 = omega (arith, bit_and_mask 4 v) in
    hex_loop-All n (shr v 4) (hex_digit (bit_and v 0xF) ∷ out)
      (hex_digit-IsHexDigit (bit_and v 0xF) low, h)

pub hex_text-All : (n v : ℕ) → All IsHexDigit (hex_text n v)
unfolding hex_text
hex_text-All n v = hex_loop-All n v [] tt

length-hex_loop : (n v : ℕ) (out : Text) → length (hex_loop n v out) ≡ n + length out
unfolding hex_loop
length-hex_loop zero v out = omega arith
length-hex_loop (suc n) v out =
    omega (arith, length-hex_loop n (shr v 4) (hex_digit (bit_and v 0xF) ∷ out))

hex_value-hex_loop :
    (n v : ℕ) (out : Text) → hex_value 0 (hex_loop n v out) ≡ hex_value (v % 16 ^ n) out
unfolding hex_loop
hex_value-hex_loop zero v out = ap (λ (k : ℕ). hex_value k out) (omega arith)
hex_value-hex_loop (suc n) v out =
    hex_value-hex_loop n (shr v 4) (hex_digit (bit_and v 0xF) ∷ out)
    ∙ ap (λ (k : ℕ). hex_value k out) last
  where
    last : v / 16 % 16 ^ n * 16 + digit_value (hex_digit (bit_and v 0xF)) ≡ v % 16 ^ suc n
    last =
        rw (bit_and_mask 4 v, digit_value-hex_digit (v % 16) (omega arith))
          (sym (mod-mul v (16 ^ n) 16 (one-le-pow n 16 (omega arith)) (omega arith))
            ∙ ap (λ (t : ℕ). v % t) (sym (pow-suc 16 n)))

-- The hex text of a value has exactly the digits asked for, and reads back as the value's low bits,
-- four to a digit.
pub hex_text_lem :
    (n v : ℕ) → (length (hex_text n v) ≡ n) × (hex_value 0 (hex_text n v) ≡ v % 16 ^ n)
unfolding hex_text
hex_text_lem n v = (omega (arith, length-hex_loop n v []), hex_value-hex_loop n v [])

pub append_hex-Shows :
    {w : LineWriter} {s : Text} (n v : ℕ) → Shows w s → Shows (append_hex n w v) (s ++ hex_text n v)
unfolding append_hex hex_text
append_hex-Shows n v shows = append-Shows (hex_loop n v []) shows
