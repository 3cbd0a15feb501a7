-- ===== src/LineWriter/Kept.antt =====
-- No append changes the buffer's length.
use gamegine.Common.{
  ℕ, min, inl, inr, ◌≡◌, refl, ◌∙◌, Text, length, take, drop, replicate, ltb, ◌==◌, Bool-cases,
  get_or, ◌&&◌,
}
use gamegine.Common.Int.{ℤ}
use gamegine.LineWriter.Defs.{
  LineWriter, room, append, append_repeated, append_char, append_padded, append_fitted,
}
use gamegine.LineWriter.Numbers.{to_chars, append_decimal, append_hex}
use gamegine.LineWriter.Shows.{length-copy_at}
use gamegine.LineWriter.Pads.{append_repeated-eq-append}

pub kept-append : (w : LineWriter) (t : Text) → length (append w t).buffer ≡ length w.buffer
unfolding append
kept-append w t = elim (Bool-cases (min (length t) (room w) == 0)) [
  | inl e ↦ elim (Bool-cases (ltb (room w) (length t))) [
    | inl f ↦ rw e (rw f refl)
    | inr f ↦ rw e (rw f refl)
  ]
  | inr e ↦ elim (Bool-cases (ltb (room w) (length t))) [
    | inl f ↦ rw e (rw f (length-copy_at w.buffer w.size (take (min (length t) (room w)) t)))
    | inr f ↦ rw e (rw f (length-copy_at w.buffer w.size (take (min (length t) (room w)) t)))
  ]
]

pub kept-append_repeated :
    (w : LineWriter) (c n : ℕ) → length (append_repeated w c n).buffer ≡ length w.buffer
kept-append_repeated w c n = rw (append_repeated-eq-append w c n) (kept-append w (replicate n c))

pub kept-append_char : (w : LineWriter) (c : ℕ) → length (append_char w c).buffer ≡ length w.buffer
unfolding append_char
kept-append_char w c = kept-append_repeated w c 1

pub kept-append_hex :
    (n : ℕ) (w : LineWriter) (v : ℕ) → length (append_hex n w v).buffer ≡ length w.buffer
unfolding append_hex
kept-append_hex n w v = kept-append w _

pub kept-append_padded :
    (w : LineWriter) (t : Text) (width fill : ℕ)
    → length (append_padded w t width fill).buffer ≡ length w.buffer
unfolding append_padded
kept-append_padded w t width fill = elim (Bool-cases (ltb (length t) width)) [
  | inl e ↦ rw e (kept-append_repeated (append w t) fill _ ∙ kept-append w t)
  | inr e ↦ rw e (kept-append w t)
]

pub kept-append_fitted :
    (w : LineWriter) (t : Text) (width fill : ℕ)
    → length (append_fitted w t width fill).buffer ≡ length w.buffer
unfolding append_fitted
kept-append_fitted w t width fill = kept-append_padded w (take width t) width fill

pub kept-append_decimal :
    (w : LineWriter) (z : ℤ) (width fill : ℕ)
    → length (append_decimal w z width fill).buffer ≡ length w.buffer
unfolding append_decimal
kept-append_decimal w z width fill = elim (Bool-cases (ltb (length (to_chars z)) width)) [
  | inl e ↦ elim (Bool-cases (fill == b'0' && get_or (to_chars z) 0 0 == b'-')) [
    | inl f ↦ rw e (
        rw f (
          kept-append _ (drop 1 (to_chars z))
          ∙ kept-append_repeated (append_char w b'-') fill _
          ∙ kept-append_char w b'-'))
    | inr f ↦ rw e (rw f (kept-append _ (to_chars z) ∙ kept-append_repeated w fill _))
  ]
  | inr e ↦ rw e (kept-append w (to_chars z))
]
