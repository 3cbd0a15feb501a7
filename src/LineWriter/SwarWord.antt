-- ===== src/LineWriter/SwarWord.antt =====
-- Both tests of `copy_plain` on a word together, and what `std::countr_zero` makes of their flags.
use native.Mathlib.Nat.{pow-suc}
use gamegine.Common.{
  ℕ, zero, suc, ◌+◌, ◌*◌, ◌/◌, ◌%◌, ◌^◌, ◌<◌, true, false, inl, inr, [], ◌∷◌, map, ◌≡◌, refl, ap,
  ap₂, ◌∙◌, arith, Text, length, All, ltb, ◌==◌, if◌then◌else◌, Bool-cases, bit_or, bit_xor,
}
use gamegine.Common.Bits.{bit_or_fields, bit_xor_fields}
use gamegine.LineWriter.Plain.{is_control, below, flags, load_word, countr_zero}
use gamegine.LineWriter.Swar.{
  plain_run, IsByte, repeated, under, carried, under-cons, carried_of_le, space_flag, del_flag,
  xor_limit, xor-lt,
}

-- Every byte of a text with the bits of DEL turned over: a DEL becomes 0.
abbrev turned : Text → Text
turned t = map (λ c. bit_xor c 0x7F) t

turned-All : (t : Text) → All IsByte t → All IsByte (turned t)
turned-All [] h = tt
turned-All (c ∷ t) (hc, ht) = (xor-lt c hc, turned-All t ht)

load_word-turned :
    (t : Text) → All IsByte t → bit_xor (load_word t) (repeated 0x7F t) ≡ load_word (turned t)
load_word-turned [] h = refl
load_word-turned (c ∷ t) (hc, ht) =
    bit_xor_fields 8 (load_word t) c (repeated 0x7F t) 0x7F hc (omega arith)
    ∙ ap (λ (x : ℕ). x * 256 + bit_xor c 0x7F) (load_word-turned t ht)

-- The two tests of `copy_plain`, joined.
word_flags : Text → ℕ
word_flags t = bit_or (under 0x20 t) (under 1 (turned t))

-- The flag of the lowest byte stands by itself.
word_flags-cons :
    (c : ℕ) (t : Text)
    → c < 256
    → All IsByte t
    → word_flags (c ∷ t)
      ≡ bit_or (carried 0x20 c t) (carried 1 (bit_xor c 0x7F) (turned t)) * 2 ^ 8
        + bit_or (if ltb c 0x20 then 0x80 else 0) (if c == 0x7F then 0x80 else 0)
unfolding word_flags
word_flags-cons c t hc ht =
    ap₂ bit_or
      (under-cons 0x20 c t (omega arith) hc ht
        ∙ ap (λ (x : ℕ). carried 0x20 c t * 2 ^ 8 + x) (space_flag c hc))
      (under-cons 1 (bit_xor c 0x7F) (turned t) (omega arith) (xor-lt c hc) (turned-All t ht)
        ∙ ap (λ (x : ℕ). carried 1 (bit_xor c 0x7F) (turned t) * 2 ^ 8 + x) (del_flag c hc))
    ∙ bit_or_fields 8 (carried 0x20 c t) (if ltb c 0x20 then 0x80 else 0)
        (carried 1 (bit_xor c 0x7F) (turned t)) (if c == 0x7F then 0x80 else 0) (ground arith)
        (ground arith)

control_parts : (c : ℕ) → is_control c ≡ false → (ltb c 0x20 ≡ false) × ((c == 0x7F) ≡ false)
control_parts c e = ground arith

word_flags_plain :
    (c : ℕ) (t : Text)
    → c < 256
    → All IsByte t
    → is_control c ≡ false
    → word_flags (c ∷ t) ≡ word_flags t * 256
word_flags_plain c t hc ht e =
    let (space, del) = control_parts c e in
    let limit = xor_limit c hc del in
    word_flags-cons c t hc ht
    ∙ rw
        (
          space,
          del,
          carried_of_le 0x20 c t (omega arith) hc ht space,
          carried_of_le 1 (bit_xor c 0x7F) (turned t) (omega arith) (xor-lt c hc) (turned-All t ht)
              limit,
        )
        (unfold word_flags in omega arith)

one_flag :
    (c : ℕ)
    → is_control c ≡ true
    → bit_or (if ltb c 0x20 then 0x80 else 0) (if c == 0x7F then 0x80 else 0) ≡ 128
one_flag c e = ground arith

word_flags_control :
    (c : ℕ) (t : Text)
    → c < 256
    → All IsByte t
    → is_control c ≡ true
    → (q : ℕ) × (word_flags (c ∷ t) ≡ q * 256 + 128)
word_flags_control c t hc ht e =
    let q = bit_or (carried 0x20 c t) (carried 1 (bit_xor c 0x7F) (turned t)) in
    (q, word_flags-cons c t hc ht ∙ ap (λ (x : ℕ). q * 256 + x) (one_flag c e))

abbrev more : ℕ → ℕ → ℕ
more zero k = k
more (suc n) k = suc (more n k)

-- `n` trailing zeros are counted as `n`.
countr_zero-shift : (n k x : ℕ) → countr_zero (more n k) (x * 2 ^ n) ≡ more n (countr_zero k x)
countr_zero-shift zero k x = ap (countr_zero k) (omega arith)
countr_zero-shift (suc n) k x =
    ap (countr_zero (suc (more n k))) double
    ∙ even (more n k) (x * 2 ^ n)
    ∙ ap suc (countr_zero-shift n k x)
  where
    double : x * 2 ^ suc n ≡ 2 * (x * 2 ^ n)
    double = omega (arith, ap (λ (t : ℕ). x * t) (pow-suc 2 n))

    even : (j y : ℕ) → countr_zero (suc j) (2 * y) ≡ suc (countr_zero j y)
    even j y =
        let e : 2 * y % 2 ≡ 0 = omega arith in
        let e' : 2 * y / 2 ≡ y = omega arith in unfold countr_zero in rw (e, e')

countr_zero_flag : (k q : ℕ) → countr_zero (more 8 k) (q * 256 + 128) ≡ 7
countr_zero_flag k q =
    ap (countr_zero (more 8 k)) (omega arith)
    ∙ countr_zero-shift 7 (suc k) (2 * q + 1)
    ∙ ap (more 7) odd
  where
    odd : countr_zero (suc k) (2 * q + 1) ≡ 0
    odd = let e : (2 * q + 1) % 2 ≡ 1 = omega arith in unfold countr_zero in rw e

abbrev bits_of : Text → ℕ
bits_of [] = 0
bits_of (c ∷ t) = more 8 (bits_of t)

-- What the flags of a word say of its bytes.
record FirstControl (t : Text) : Type 0 where
  quiet : plain_run t ≡ length t → word_flags t ≡ 0
  raised : plain_run t < length t → 0 < word_flags t
  lowest : plain_run t < length t → countr_zero (bits_of t) (word_flags t) ≡ 8 * plain_run t + 7

word_flags-FirstControl : (t : Text) → All IsByte t → FirstControl t
word_flags-FirstControl [] h = record {
  quiet = λ _. unfold word_flags under in refl;
  raised = λ p. absurd (omega arith);
  lowest = λ p. absurd (omega arith);
}
word_flags-FirstControl (c ∷ t) (hc, ht) = elim (Bool-cases (is_control c)) [
  | inl e ↦
      let (q, f) = word_flags_control c t hc ht e in
      let run : plain_run (c ∷ t) ≡ 0 = rw e in
      record {
        quiet = λ p. absurd (omega arith);
        raised = λ p. omega arith;
        lowest = λ p.
            ap (countr_zero (bits_of (c ∷ t))) f ∙ countr_zero_flag (bits_of t) q ∙ omega arith;
      }
  | inr e ↦
      let ih = word_flags-FirstControl t ht in
      let f = word_flags_plain c t hc ht e in
      let run : plain_run (c ∷ t) ≡ suc (plain_run t) = rw e in
      record {
        quiet = λ p. omega (arith, ih.quiet (omega arith));
        raised = λ p. omega (arith, ih.raised (omega arith));
        lowest = λ p.
            ap (countr_zero (bits_of (c ∷ t))) f
            ∙ countr_zero-shift 8 (bits_of t) (word_flags t)
            ∙ omega (arith, ih.lowest (omega arith));
      }
]

-- The word that `copy_plain` tests: eight bytes, in 64-bit arithmetic.
module _ (a b c d e f g h : ℕ) where
  abbrev eight : Text
  eight = a ∷ b ∷ c ∷ d ∷ e ∷ f ∷ g ∷ h ∷ []

  flags-eq-word_flags : All IsByte eight → flags (load_word eight) ≡ word_flags eight
  unfolding flags below word_flags under
  flags-eq-word_flags all = rw (load_word-turned eight all)

  -- A word is not flagged exactly when none of its eight bytes is a control character, and the
  -- lowest flag of a flagged word is that of the first one.
  pub flags_lem :
      All IsByte eight
      → (plain_run eight ≡ 8 → flags (load_word eight) ≡ 0)
        × (plain_run eight < 8
            → (0 < flags (load_word eight))
              × (countr_zero 64 (flags (load_word eight)) / 8 ≡ plain_run eight))
  flags_lem all =
      let first = word_flags-FirstControl eight all in
      rw (flags-eq-word_flags all)
        (first.quiet, λ p. (first.raised p, omega (arith, first.lowest p)))
