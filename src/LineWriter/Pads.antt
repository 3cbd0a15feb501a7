-- ===== src/LineWriter/Pads.antt =====
-- The appends of fill characters and in columns, over `append`.
use gamegine.Common.{
  ℕ, zero, suc, ◌+◌, ◌-◌, ◌≤◌, ◌<◌, ◌^◌, ◌%◌, min, inl, inr, ◌∷◌, [], ◌++◌, ◌≡◌, refl, ap, arith,
  Text, length, take, replicate, ltb, Bool-cases, ltb→lt, ltb_false→le, length-replicate,
  append-nil, append_assoc,
}
use gamegine.LineWriter.Defs.{
  LineWriter, room, append, append_repeated, append_char, append_padded, append_fitted,
}
use gamegine.LineWriter.Shows.{Shows, append-Shows}

take-replicate : (n m c : ℕ) → take (min n m) (replicate n c) ≡ replicate (min n m) c
take-replicate n m c = go n (min n m) (omega arith)
  where
    go : (k j : ℕ) → j ≤ k → take j (replicate k c) ≡ replicate j c
    go k zero h = refl
    go zero (suc j) h = absurd (omega arith)
    go (suc k) (suc j) h = ap (λ t. c ∷ t) (go k j (omega arith))

-- `std::memset` of so many copies is `std::memcpy` of a text of them.
pub append_repeated-eq-append :
    (w : LineWriter) (c n : ℕ) → append_repeated w c n ≡ append w (replicate n c)
unfolding append_repeated append
append_repeated-eq-append w c n = rw (length-replicate n c, take-replicate n (room w) c)

pub append_repeated-Shows :
    {w : LineWriter} {s : Text} (c n : ℕ)
    → Shows w s
    → Shows (append_repeated w c n) (s ++ replicate n c)
append_repeated-Shows {w} c n v =
    rw (append_repeated-eq-append w c n) (append-Shows (replicate n c) v)

pub append_char-Shows :
    {w : LineWriter} {s : Text} (c : ℕ) → Shows w s → Shows (append_char w c) (s ++ (c ∷ []))
unfolding append_char
append_char-Shows c v = append_repeated-Shows c 1 v

-- `text` in a column of `width`, as `{:<N}` writes it.
abbrev pub padded : Text → ℕ → ℕ → Text
padded text width fill = text ++ replicate (width - length text) fill

pub append_padded-Shows :
    {w : LineWriter} {s : Text} (t : Text) (width fill : ℕ)
    → width < 2 ^ 64
    → Shows w s
    → Shows (append_padded w t width fill) (s ++ padded t width fill)
unfolding append_padded
append_padded-Shows {w} {s} t width fill fits v = elim (Bool-cases (ltb (length t) width)) [
  | inl e ↦
      let short : length t < width = ltb→lt (length t) width e in
      let e' : (width + 2 ^ 64 - length t) % 2 ^ 64 ≡ width - length t = omega arith in
      rw (e, e', ← append_assoc s t _)
        (append_repeated-Shows fill (width - length t) (append-Shows t v))
  | inr e ↦
      let long : width ≤ length t = ltb_false→le (length t) width e in
      let e' : width - length t ≡ 0 = omega arith in rw (e, e', append-nil t) (append-Shows t v)
]

-- `text` in exactly `width` characters, as `{:<N.N}` writes it.
abbrev pub fitted : Text → ℕ → ℕ → Text
fitted text width fill = padded (take width text) width fill

-- Of a writer that shows `s`, `append_fitted` makes one that shows `s` and the text cut or filled to
-- exactly the column's width, for every width of 64 bits.
pub append_fitted-Shows :
    {w : LineWriter} {s : Text} (t : Text) (width fill : ℕ)
    → width < 2 ^ 64
    → Shows w s
    → Shows (append_fitted w t width fill) (s ++ fitted t width fill)
unfolding append_fitted
append_fitted-Shows t width fill fits v = append_padded-Shows (take width t) width fill fits v
