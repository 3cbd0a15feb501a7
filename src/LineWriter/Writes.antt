-- ===== src/LineWriter/Writes.antt =====
-- Appends in a row: what each writes, joined.
use mathlib.Core.Path.{subst}
use gamegine.Common.{
  ℕ, ◌++◌, ◌∷◌, [], ◌^◌, ◌<◌, ◌≤◌, ◌≡◌, refl, ◌∙◌, append_assoc, append-nil, Text, length,
  take_of_le, arith, false,
}
use gamegine.Common.Int.{ℤ}
use gamegine.LineWriter.Defs.{
  LineWriter, make, append, append_char, append_padded, append_fitted, view,
}
use gamegine.LineWriter.Numbers.{append_decimal, append_hex, append_float}
use gamegine.LineWriter.Shows.{Shows, make-Shows, size-Shows, append-Shows}
use gamegine.LineWriter.Pads.{
  append_char-Shows, padded, append_padded-Shows, fitted, append_fitted-Shows,
}
use gamegine.LineWriter.Hex.{hex_text, append_hex-Shows}
use gamegine.LineWriter.Decimal.{aligned, append_decimal-Shows}
use gamegine.LineWriter.Kept.{
  kept-append, kept-append_char, kept-append_hex, kept-append_padded, kept-append_fitted,
  kept-append_decimal,
}

-- `f` writes `t`, whatever was written before it and however much of that fitted.
abbrev pub Writes : (LineWriter → LineWriter) → Text → Type 0
Writes f t =
    (w : LineWriter) (s : Text)
    → Shows w s
    → Shows (f w) (s ++ t) × (length (f w).buffer ≡ length w.buffer)

pub then-Writes :
    {f g : LineWriter → LineWriter} {t u : Text}
    → Writes f t
    → Writes g u
    → Writes (λ w. g (f w)) (t ++ u)
then-Writes {f} {g} {t} {u} first second w s v =
    let (v1, k1) = first w s v in
    let (v2, k2) = second (f w) (s ++ t) v1 in
    (subst (Shows (g (f w))) (append_assoc s t u) v2, k2 ∙ k1)

pub nothing-Writes : Writes (λ w. w) []
nothing-Writes w s v = (rw (append-nil s) v, refl)

pub append-Writes : (t : Text) → Writes (λ w. append w t) t
append-Writes t w s v = (append-Shows t v, kept-append w t)

pub append_char-Writes : (c : ℕ) → Writes (λ w. append_char w c) (c ∷ [])
append_char-Writes c w s v = (append_char-Shows c v, kept-append_char w c)

pub append_hex-Writes : (n v : ℕ) → Writes (λ w. append_hex n w v) (hex_text n v)
append_hex-Writes n x w s v = (append_hex-Shows n x v, kept-append_hex n w x)

pub append_float-Writes :
    (to_chars : ℕ → Text) (bits : ℕ) → Writes (λ w. append_float to_chars w bits) (to_chars bits)
unfolding append_float
append_float-Writes to_chars bits = append-Writes (to_chars bits)

pub append_decimal-Writes :
    (z : ℤ) (width fill : ℕ)
    → width < 2 ^ 64
    → Writes (λ w. append_decimal w z width fill) (aligned z width fill)
append_decimal-Writes z width fill h w s v =
    (append_decimal-Shows v z width fill h, kept-append_decimal w z width fill)

pub append_padded-Writes :
    (t : Text) (width fill : ℕ)
    → width < 2 ^ 64
    → Writes (λ w. append_padded w t width fill) (padded t width fill)
append_padded-Writes t width fill h w s v =
    (append_padded-Shows t width fill h v, kept-append_padded w t width fill)

pub append_fitted-Writes :
    (t : Text) (width fill : ℕ)
    → width < 2 ^ 64
    → Writes (λ w. append_fitted w t width fill) (fitted t width fill)
append_fitted-Writes t width fill h w s v =
    (append_fitted-Shows t width fill h v, kept-append_fitted w t width fill)

-- A text that the buffer takes is shown whole, and not marked as cut.
pub whole-Shows :
    {w : LineWriter} {s : Text}
    → Shows w s
    → length s ≤ length w.buffer
    → (w.size ≡ length s) × (view w ≡ s) × (w.truncated ≡ false)
whole-Shows {w} {s} v h =
    (omega (arith, size-Shows v), v.shown ∙ take_of_le (length w.buffer) s h, v.flag ∙ ground arith)

-- From an empty buffer that takes it, the whole of what is written.
pub make-Writes :
    {f : LineWriter → LineWriter} {t : Text} (buffer : Text)
    → Writes f t
    → length t ≤ length buffer
    → length buffer < 2 ^ 64
    → ((f (make buffer)).size ≡ length t)
      × (view (f (make buffer)) ≡ t)
      × ((f (make buffer)).truncated ≡ false)
unfolding make
make-Writes {f} {t} buffer writes h a =
    let (v, k) = writes (make buffer) [] (make-Shows buffer a) in whole-Shows v (omega (arith, k))
