-- ===== src/LineWriter/CopyPlain.antt =====
-- `copy_plain` copies the text up to its first control character, and writes nothing behind it.
use gamegine.Common.{
  ℕ, ◌+◌, ◌-◌, ◌/◌, ◌≤◌, ◌<◌, true, false, inl, inr, [], ◌∷◌, ◌++◌, ◌≡◌, refl, sym, ap, ◌∙◌, arith,
  Text, length, All, take, drop, set, ◌==◌, Bool-cases, take-take, take-append, take-append_add,
  All-split, length-set, drop-set, length-append, append_assoc, append-nil, length-take,
}
use gamegine.LineWriter.Defs.{copy_at}
use gamegine.LineWriter.Plain.{
  is_control, flags, load_word, countr_zero, Copied, copy_bytes, copy_words, copy_plain,
}
use gamegine.LineWriter.Shows.{take-copy_at, length-copy_at}
use gamegine.LineWriter.Swar.{plain_run, IsByte}
use gamegine.LineWriter.SwarWord.{flags_lem}

pub plain_run-le : (t : Text) → plain_run t ≤ length t
plain_run-le [] = omega arith
plain_run-le (c ∷ t) = ground (arith, plain_run-le t)

pub plain_run-append_lt : (s t : Text) → plain_run s < length s → plain_run (s ++ t) ≡ plain_run s
plain_run-append_lt [] t h = absurd (omega arith)
plain_run-append_lt (c ∷ s) t h = ground (arith, plain_run-append_lt s t)

plain_run-append_eq :
    (s t : Text) → plain_run s ≡ length s → plain_run (s ++ t) ≡ length s + plain_run t
plain_run-append_eq [] t h = omega arith
plain_run-append_eq (c ∷ s) t h = ground (arith, plain_run-append_eq s t)

drop-copy_at :
    (b : Text) (o : ℕ) (t : Text) (n : ℕ) → o + length t ≤ n → drop n (copy_at b o t) ≡ drop n b
drop-copy_at b o [] n h = refl
drop-copy_at b o (c ∷ t) n h =
    drop-copy_at (set b o c) (o + 1) t n (omega arith) ∙ drop-set n b o c (omega arith)

-- `r` is what a copy of `text` to offset `o` may leave: the run up to the first control character
-- stands there, its end is returned, and nothing before `o` or behind the text has changed.
pub record IsPlainCopy (out : Text) (o position : ℕ) (text : Text) (r : Copied) : Type 0 where
  pub same_length : length r.0 ≡ length out
  pub returned : r.1 ≡ position + plain_run text
  pub copied : take (o + plain_run text) r.0 ≡ take o out ++ take (plain_run text) text
  pub untouched : drop (o + length text) r.0 ≡ drop (o + length text) out

-- What a loop copies after it has copied `s`, which is plain.
IsPlainCopy-after :
    (out s : Text) (o position : ℕ) (t : Text) (r : Copied) {o' position' : ℕ}
    → o' ≡ o + length s
    → position' ≡ position + length s
    → plain_run s ≡ length s
    → o + length (s ++ t) ≤ length out
    → IsPlainCopy (copy_at out o s) o' position' t r
    → IsPlainCopy out o position (s ++ t) r
IsPlainCopy-after out s o position t r {o'} {position'} eo ep plain fits c = record {
  same_length = c.same_length ∙ length-copy_at out o s;
  returned = omega (arith, c.returned, run);
  copied =
      ap (λ (k : ℕ). take k r.0) (omega (arith, run))
      ∙ c.copied
      ∙ ap (λ u. u ++ take (plain_run t) t)
          (take-copy_at out o s {n = o'} (sym eo) (omega (arith, length-append s t)))
      ∙ append_assoc (take o out) s (take (plain_run t) t)
      ∙ ap (λ u. take o out ++ u) (sym (take-append_add s t (plain_run t) run));
  untouched = untouched_at;
}
  where
    run : plain_run (s ++ t) ≡ length s + plain_run t
    run = plain_run-append_eq s t plain

    untouched_at : drop (o + length (s ++ t)) r.0 ≡ drop (o + length (s ++ t)) out
    untouched_at =
        let e : o + length (s ++ t) ≡ o' + length t = omega (arith, length-append s t) in
        rw e (c.untouched ∙ drop-copy_at out o s (o' + length t) (omega arith))

-- A copy of `s`, of which only the run in front of the first control character counts.
IsPlainCopy-stop :
    (out s : Text) (o position k : ℕ) (t : Text)
    → plain_run s < length s
    → k ≡ plain_run s
    → o + length (s ++ t) ≤ length out
    → IsPlainCopy out o position (s ++ t) (copy_at out o s, position + k)
IsPlainCopy-stop out s o position k t h ek fits = record {
  same_length = length-copy_at out o s;
  returned = omega (arith, run);
  copied = rw run (
      sym (take-take (o + plain_run s) (o + length s) (copy_at out o s) (omega arith))
      ∙ ap (take (o + plain_run s)) (take-copy_at out o s refl (omega (arith, length-append s t)))
      ∙ take-append_add_take
      ∙ ap (λ u. take o out ++ u) short);
  untouched = drop-copy_at out o s (o + length (s ++ t)) (omega (arith, length-append s t));
}
  where
    run : plain_run (s ++ t) ≡ plain_run s
    run = plain_run-append_lt s t h

    take-append_add_take :
        take (o + plain_run s) (take o out ++ s) ≡ take o out ++ take (plain_run s) s
    take-append_add_take =
        take-append_add (take o out) s (plain_run s)
          (omega (arith, length-take o out, length-append s t))

    short : take (plain_run s) s ≡ take (plain_run s) (s ++ t)
    short = sym (
        take-append (plain_run s) s t
        ∙ (let e : plain_run s - length s ≡ 0 = omega arith in
            rw e (append-nil (take (plain_run s) s))))

copy_bytes-IsPlainCopy :
    (out : Text) (start position : ℕ) (text : Text)
    → start + position + length text ≤ length out
    → IsPlainCopy out (start + position) position text (copy_bytes out start position text)
unfolding copy_bytes
copy_bytes-IsPlainCopy out start position [] h = record {
  same_length = refl;
  returned = omega arith;
  copied =
      let e : start + position + 0 ≡ start + position = omega arith in
      rw e (sym (append-nil (take (start + position) out)));
  untouched = refl;
}
copy_bytes-IsPlainCopy out start position (c ∷ text) h = elim (Bool-cases (is_control c)) [
  | inl q ↦ rw q (record {
    same_length = refl;
    returned = rw q (omega arith);
    copied = rw q (
        let e : start + position + 0 ≡ start + position = omega arith in
        rw e (sym (append-nil (take (start + position) out))));
    untouched = refl;
  })
  | inr q ↦ rw q (
      IsPlainCopy-after out (c ∷ []) (start + position) position text _ (omega arith) (omega arith)
        (rw q) h
        (copy_bytes-IsPlainCopy (set out (start + position) c) start (position + 1) text
          (omega (arith, length-set out (start + position) c))))
]

-- The test of a word, as the code makes it.
test_word :
    (flagged run : ℕ)
    → run ≤ 8
    → (run ≡ 8 → flagged ≡ 0)
    → (run < 8 → 0 < flagged)
    → ((flagged == 0) ≡ true → run ≡ 8) × ((flagged == 0) ≡ false → run < 8)
test_word flagged run h quiet raised = (λ e. ground arith, λ e. ground arith)

copy_words-IsPlainCopy :
    (out : Text) (start position : ℕ) (text : Text)
    → All IsByte text
    → start + position + length text ≤ length out
    → IsPlainCopy out (start + position) position text (copy_words out start position text)
unfolding copy_words
copy_words-IsPlainCopy out start position (a ∷ b ∷ c ∷ d ∷ e ∷ f ∷ g ∷ h ∷ text) bytes fits =
    elim (Bool-cases (flags (load_word eight) == 0)) [
      | inl q ↦ rw q (
          IsPlainCopy-after out eight (start + position) position text _ (omega arith) refl
            (decide.0 q) fits
            (copy_words-IsPlainCopy out' start (position + 8) text split.1
              (omega (arith, length-copy_at out (start + position) eight))))
      | inr q ↦
          let some_control : plain_run eight < 8 = decide.1 q in
          rw q (
            IsPlainCopy-stop out eight (start + position) position _ text some_control
              (flagged.1 some_control).1 fits)
    ]
  where
    eight : Text
    eight = a ∷ b ∷ c ∷ d ∷ e ∷ f ∷ g ∷ h ∷ []

    out' : Text
    out' = copy_at out (start + position) eight

    split : All IsByte eight × All IsByte text
    split = All-split IsByte eight text bytes

    flagged :
        (plain_run eight ≡ 8 → flags (load_word eight) ≡ 0)
        × (plain_run eight < 8
            → (0 < flags (load_word eight))
              × (countr_zero 64 (flags (load_word eight)) / 8 ≡ plain_run eight))
    flagged = flags_lem a b c d e f g h split.0

    decide :
        ((flags (load_word eight) == 0) ≡ true → plain_run eight ≡ 8)
        × ((flags (load_word eight) == 0) ≡ false → plain_run eight < 8)
    decide =
        test_word (flags (load_word eight)) (plain_run eight) (plain_run-le eight) flagged.0
          (λ p. (flagged.1 p).0)
copy_words-IsPlainCopy out start position text bytes fits =
    copy_bytes-IsPlainCopy out start position text fits

-- The copy of a text of bytes in words, into a buffer that has room for it, is the copy of the run
-- in front of the first control character: that run is copied and its length returned, and no byte
-- is written before it or behind the text.
pub copy_plain-IsPlainCopy :
    (out : Text) (start : ℕ) (text : Text)
    → All IsByte text
    → start + length text ≤ length out
    → IsPlainCopy out start 0 text (copy_plain out start text)
unfolding copy_plain
copy_plain-IsPlainCopy out start text bytes fits =
    let e : start + 0 ≡ start = omega arith in
    rw e at (copy_words-IsPlainCopy out start 0 text bytes (omega arith))
