-- ===== src/LineWriter/Numbers.antt =====
-- The appends of numbers: `append_decimal`, `append_hex` and `append_float`.
use gamegine.Common.{
  ℕ, zero, suc, ◌+◌, ◌/◌, ◌%◌, Bool, ◌&&◌, [], ◌∷◌, Text, codes, length, get_or, drop, ltb, ◌==◌,
  if◌then◌else◌, sub64, bit_and, shr,
}
use gamegine.Common.Int.{ℤ}
use gamegine.LineWriter.Defs.{LineWriter, append, append_repeated, append_char}

-- The digits of `n` in front of `out`, last digit first; `suc n` rounds are more than enough.
unfoldable pub digits_before : ℕ → ℕ → Text → Text
digits_before zero n out = out
digits_before (suc rounds) n out =
    let out' = (b'0' + n % 10) ∷ out in
    let more = digits_before rounds (n / 10) out' in if ltb n 10 then out' else more

unfoldable pub decimal : ℕ → Text
unfolding digits_before
decimal n = digits_before (suc n) n []

-- `std::to_chars` of an integer, in base ten.
abbrev pub to_chars : ℤ → Text
to_chars (ℤ.pos n) = decimal n
to_chars (ℤ.negsuc n) = b'-' ∷ decimal (n + 1)

-- `pad_fill == '0' && text.front() == '-'`
abbrev sign_first : Text → ℕ → Bool
sign_first text pad_fill = pad_fill == b'0' && get_or text 0 0 == b'-'

unfoldable pub append_decimal : LineWriter → ℤ → ℕ → ℕ → LineWriter
append_decimal w value pad_width pad_fill =
    let text = to_chars value in
    let padding = sub64 pad_width (length text) in
    if ltb (length text) pad_width
    then (if sign_first text pad_fill
        then append (append_repeated (append_char w b'-') pad_fill padding) (drop 1 text)
        else append (append_repeated w pad_fill padding) text)
    else append w text

-- `k_DIGITS[digit]`
abbrev pub hex_digit : ℕ → ℕ
hex_digit d = get_or (codes "0123456789abcdef") d 0

-- The loop fills the array from the right: a round writes the cell before those already written.
unfoldable pub hex_loop : ℕ → ℕ → Text → Text
hex_loop zero rest out = out
hex_loop (suc i) rest out = hex_loop i (shr rest 4) (hex_digit (bit_and rest 0xF) ∷ out)

unfoldable pub append_hex : ℕ → LineWriter → ℕ → LineWriter
unfolding hex_loop
append_hex n_digits w value = append w (hex_loop n_digits value [])

-- `std::to_chars` of a float gives the shortest text that reads back; it is a parameter, from the
-- 32 bits of the float to that text.
unfoldable pub append_float : (ℕ → Text) → LineWriter → ℕ → LineWriter
append_float float_to_chars w bits = append w (float_to_chars bits)
