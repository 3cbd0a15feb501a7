-- ===== src/LineWriter/Shows.antt =====
-- The contract of a `LineWriter`: the text that its appends spell, cut at the buffer's end.
use gamegine.Common.{
  ℕ, zero, suc, ◌+◌, ◌-◌, ◌≤◌, ◌<◌, ◌^◌, min, true, [], ◌∷◌, ◌++◌, ◌≡◌, refl, sym, ap, ◌∙◌, arith,
  Text, length, take, set, ltb, ◌==◌, if◌then◌else◌, length-append, length-take, length-set,
  take-append, take_of_le, Bool-cases, ==_iff, inl, inr, append-nil, append_assoc,
}
use gamegine.LineWriter.Defs.{LineWriter, make, copy_at, room, append, view}

pub length-copy_at : (b : Text) (o : ℕ) (t : Text) → length (copy_at b o t) ≡ length b
length-copy_at b o [] = refl
length-copy_at b o (c ∷ t) = length-copy_at (set b o c) (o + 1) t ∙ length-set b o c

take-set-suc : (b : Text) (o c : ℕ) → o < length b → take (suc o) (set b o c) ≡ take o b ++ (c ∷ [])
take-set-suc [] o c h = absurd (omega arith)
take-set-suc (x ∷ b) zero c h = refl
take-set-suc (x ∷ b) (suc o) c h = ap (λ t. x ∷ t) (take-set-suc b o c (omega arith))

-- Behind the bytes that were there stand the bytes that were copied.
pub take-copy_at :
    (b : Text) (o : ℕ) (t : Text) {n : ℕ}
    → o + length t ≡ n
    → n ≤ length b
    → take n (copy_at b o t) ≡ take o b ++ t
take-copy_at b o [] {n} e h =
    let e' : n ≡ o = omega arith in ap (λ (k : ℕ). take k b) e' ∙ sym (append-nil (take o b))
take-copy_at b o (c ∷ t) {n} e h =
    take-copy_at (set b o c) (o + 1) t (omega arith) (rw length-set h)
    ∙ ap (λ p. p ++ t) first
    ∙ append_assoc (take o b) (c ∷ []) t
  where
    first : take (o + 1) (set b o c) ≡ take o b ++ (c ∷ [])
    first = let s : o + 1 ≡ suc o = omega arith in rw s (take-set-suc b o c (omega arith))

-- `w` has been given the text `s`: it holds as much of `s` as the buffer takes, and knows exactly
-- whether that is all of it.
pub record Shows (w : LineWriter) (s : Text) : Type 0 where
  pub addressable : length w.buffer < 2 ^ 64
  pub within : w.size ≤ length w.buffer
  pub shown : view w ≡ take (length w.buffer) s
  pub flag : w.truncated ≡ ltb (length w.buffer) (length s)

-- How much is shown: the whole of a text that fits, and the whole buffer of one that does not.
pub size-Shows : {w : LineWriter} {s : Text} → Shows w s → w.size ≡ min (length w.buffer) (length s)
unfolding view
size-Shows {w} {s} v = omega (
  arith,
  length-take w.size w.buffer,
  ap length v.shown,
  length-take (length w.buffer) s,
  v.within,
)

pub make-Shows : (buffer : Text) → length buffer < 2 ^ 64 → Shows (make buffer) []
unfolding make view
make-Shows buffer h = record {
  addressable = h;
  within = omega arith;
  shown = sym (take_of_le (length buffer) [] (omega arith));
  flag = ground arith;
}

pub room-eq-sub :
    (w : LineWriter)
    → w.size ≤ length w.buffer
    → length w.buffer < 2 ^ 64
    → room w ≡ length w.buffer - w.size
unfolding room
room-eq-sub w h a = omega arith

pub room-Shows : {w : LineWriter} {s : Text} → Shows w s → room w ≡ length w.buffer - length s
room-Shows {w} v = omega (arith, room-eq-sub w v.within v.addressable, size-Shows v)

-- What every append does, in one equation for each field.
pub record Grew (w w' : LineWriter) (t : Text) : Type 0 where
  pub kept : length w'.buffer ≡ length w.buffer
  pub grown : w'.size ≡ w.size + min (length t) (room w)
  pub wrote : view w' ≡ view w ++ take (room w) t
  pub cut : w'.truncated ≡ (if ltb (room w) (length t) then true else w.truncated)

pub Grew-Shows : {w w' : LineWriter} {s t : Text} → Shows w s → Grew w w' t → Shows w' (s ++ t)
Grew-Shows {w} {w'} {s} {t} v g = record {
  addressable = omega (arith, g.kept, v.addressable);
  within = omega (arith, g.kept, g.grown, room-Shows v, size-Shows v);
  shown = g.wrote ∙ rw (v.shown, room-Shows v, g.kept) (sym (take-append (length w.buffer) s t));
  flag = g.cut ∙ ground (arith, room-Shows v, v.flag, g.kept, length-append s t);
}

take-min : (t : Text) (n : ℕ) → take (min (length t) n) t ≡ take n t
take-min t n = elim (Bool-cases (ltb n (length t))) [
  | inl e ↦ let e' : min (length t) n ≡ n = ground arith in rw e'
  | inr e ↦
      let e' : min (length t) n ≡ length t = ground arith in
      rw e' (take_of_le (length t) t (omega arith) ∙ sym (take_of_le n t (ground arith)))
]

module _ (w : LineWriter) (t : Text) (h : w.size ≤ length w.buffer)
    (a : length w.buffer < 2 ^ 64) where
  abbrev to_write : ℕ
  to_write = min (length t) (room w)

  abbrev copied : Text
  copied = copy_at w.buffer w.size (take to_write t)

  wrote_bytes : take (w.size + to_write) copied ≡ take w.size w.buffer ++ take (room w) t
  wrote_bytes =
      take-copy_at w.buffer w.size (take to_write t) {n = w.size + to_write}
        (omega (arith, length-take to_write t)) (omega (arith, room-eq-sub w h a))
      ∙ rw (take-min t (room w))

  no_bytes : to_write ≡ 0 → take (room w) t ≡ []
  no_bytes e = sym (take-min t (room w)) ∙ rw e

  append-Grew : Grew w (append w t) t
  unfolding append view
  append-Grew = elim (Bool-cases (to_write == 0)) [
    | inl e ↦ rw e (record {
      kept = ground arith;
      grown = ground (arith, ==_iff to_write 0);
      wrote = ground (arith, ==_iff to_write 0, no_bytes, append-nil (take w.size w.buffer));
      cut = ground arith;
    })
    | inr e ↦ rw e (record {
      kept = ground (arith, length-copy_at w.buffer w.size (take to_write t));
      grown = ground (arith, room-eq-sub w h a);
      wrote = ground (arith, wrote_bytes, room-eq-sub w h a);
      cut = ground arith;
    })
  ]

-- Of a writer that shows `s`, `append` with a text makes one that shows `s` and the text behind it,
-- cut at the buffer's end, and that is marked as cut exactly when the two do not fit.
pub append-Shows : {w : LineWriter} {s : Text} (t : Text) → Shows w s → Shows (append w t) (s ++ t)
append-Shows {w} t v = Grew-Shows v (append-Grew w t v.within v.addressable)
