-- ===== src/LineWriter/Swar.antt =====
-- The test of `copy_plain` on eight bytes at once agrees with a look at each byte: the lowest flag is
-- the first control character. It is proved for words of any number of bytes, by induction.
use gamegine.Common.{
  ℕ, suc, ◌+◌, ◌-◌, ◌*◌, ◌/◌, ◌%◌, ◌^◌, ◌<◌, true, false, [], ◌∷◌, ◌≡◌, refl, ap, ap₂, ◌∙◌, arith,
  Text, All, ltb, ◌==◌, if◌then◌else◌, all_below, all_below_sound, ==_iff, ltb→lt, bit_and, bit_xor,
}
use gamegine.Common.Bits.{bit_and_fields, bit_and-le}
use gamegine.Common.Division.{mod-mul}
use gamegine.LineWriter.Plain.{is_control, load_word}

-- How many characters stand in front of the first control character.
abbrev pub plain_run : Text → ℕ
plain_run [] = 0
plain_run (c ∷ t) = if is_control c then 0 else suc (plain_run t)

abbrev pub IsByte : ℕ → Type 0
IsByte c = c < 256

-- `256 ^ length`, and a byte value repeated so often.
abbrev pub span : Text → ℕ
span [] = 1
span (c ∷ t) = span t * 256

abbrev pub repeated : ℕ → Text → ℕ
repeated v [] = 0
repeated v (c ∷ t) = repeated v t * 256 + v

span_pos : (t : Text) → 0 < span t
span_pos [] = omega arith
span_pos (c ∷ t) = omega (arith, span_pos t)

load_word-lt : (t : Text) → All IsByte t → load_word t < span t
load_word-lt [] h = omega arith
load_word-lt (c ∷ t) (hc, ht) = omega (arith, load_word-lt t ht)

repeated-lt : (v : ℕ) (t : Text) → v < 256 → repeated v t < span t
repeated-lt v [] h = omega arith
repeated-lt v (c ∷ t) h = omega (arith, repeated-lt v t h)

-- `below` on a word of `t`, and on one byte.
unfoldable pub under : ℕ → Text → ℕ
under l t =
    bit_and (bit_and ((load_word t + span t - repeated l t) % span t) (span t - 1 - load_word t))
      (repeated 0x80 t)

unfoldable pub under_byte : ℕ → ℕ → ℕ
under_byte l b = bit_and (bit_and ((b + 256 - l) % 256) (255 - b)) 0x80

-- What the higher bytes contribute: the borrow of a lowest byte that is below the limit spoils it.
unfoldable pub carried : ℕ → ℕ → Text → ℕ
carried l b t =
    bit_and
      (bit_and ((load_word t + span t - repeated l t - (if ltb b l then 1 else 0)) % span t)
        (span t - 1 - load_word t))
      (repeated 0x80 t)

module _ (l b : ℕ) (t : Text) (hl : l < 256) (hb : b < 256) (ht : All IsByte t) where
  difference :
      (load_word (b ∷ t) + span (b ∷ t) - repeated l (b ∷ t)) % span (b ∷ t)
      ≡ (load_word t + span t - repeated l t - (if ltb b l then 1 else 0)) % span t * 2 ^ 8
        + (b + 256 - l) % 256
  difference =
      mod-mul whole (span t) 256 (span_pos t) (omega arith)
      ∙ ap₂ (λ (x y : ℕ). x % span t * 256 + y) quotient remainder
    where
      whole : ℕ
      whole = load_word (b ∷ t) + span (b ∷ t) - repeated l (b ∷ t)

      quotient : whole / 256 ≡ load_word t + span t - repeated l t - (if ltb b l then 1 else 0)
      quotient = ground (arith, repeated-lt l t hl)

      remainder : whole % 256 ≡ (b + 256 - l) % 256
      remainder = omega (arith, repeated-lt l t hl)

  complement : span (b ∷ t) - 1 - load_word (b ∷ t) ≡ (span t - 1 - load_word t) * 2 ^ 8 + (255 - b)
  complement = omega (arith, load_word-lt t ht)

  pub under-cons : under l (b ∷ t) ≡ carried l b t * 2 ^ 8 + under_byte l b
  unfolding under carried under_byte
  under-cons =
      let d = (b + 256 - l) % 256 in
      let d' = (load_word t + span t - repeated l t - (if ltb b l then 1 else 0)) % span t in
      let c' = span t - 1 - load_word t in
      ap₂ (λ (x y : ℕ). bit_and (bit_and x y) (repeated 0x80 (b ∷ t))) difference complement
      ∙ ap (λ (x : ℕ). bit_and x (repeated 0x80 t * 2 ^ 8 + 0x80))
          (bit_and_fields 8 d' d c' (255 - b) (omega arith) (omega arith))
      ∙ bit_and_fields 8 (bit_and d' c') (bit_and d (255 - b)) (repeated 0x80 t) 0x80
          (omega (arith, bit_and-le d (255 - b))) (omega arith)

  -- A byte at or above the limit borrows nothing.
  pub carried_of_le : ltb b l ≡ false → carried l b t ≡ under l t
  unfolding carried under
  carried_of_le e = rw e (
      ap (λ (x : ℕ). bit_and (bit_and (x % span t) (span t - 1 - load_word t)) (repeated 0x80 t))
        (omega arith))

-- The test of one byte against each limit, by looking at all 256.
space_table : all_below 256 (λ b. under_byte 0x20 b == (if ltb b 0x20 then 0x80 else 0)) ≡ true
unfolding all_below under_byte
space_table = refl

pub space_flag : (b : ℕ) → b < 256 → under_byte 0x20 b ≡ (if ltb b 0x20 then 0x80 else 0)
space_flag b h = (==_iff _ _).0 (all_below_sound 256 _ b space_table h)

del_table :
    all_below 256 (λ b. under_byte 1 (bit_xor b 0x7F) == (if b == 0x7F then 0x80 else 0)) ≡ true
unfolding all_below under_byte
del_table = refl

pub del_flag : (b : ℕ) → b < 256 → under_byte 1 (bit_xor b 0x7F) ≡ (if b == 0x7F then 0x80 else 0)
del_flag b h = (==_iff _ _).0 (all_below_sound 256 _ b del_table h)

xor_table :
    all_below 256 (λ b. (if ltb (bit_xor b 0x7F) 1 then 1 else 0) == (if b == 0x7F then 1 else 0))
    ≡ true
unfolding all_below
xor_table = refl

pub xor_limit : (b : ℕ) → b < 256 → (b == 0x7F) ≡ false → ltb (bit_xor b 0x7F) 1 ≡ false
xor_limit b h e = ground (arith, (==_iff _ _).0 (all_below_sound 256 _ b xor_table h))

xor_bytes : all_below 256 (λ b. ltb (bit_xor b 0x7F) 256) ≡ true
unfolding all_below
xor_bytes = refl

pub xor-lt : (b : ℕ) → b < 256 → bit_xor b 0x7F < 256
xor-lt b h = ltb→lt _ _ (all_below_sound 256 _ b xor_bytes h)
