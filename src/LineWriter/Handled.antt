-- ===== src/LineWriter/Handled.antt =====
-- The control character that ends a pass of `append_continued`.
use gamegine.Common.{
  ℕ, ◌<◌, true, false, inl, inr, [], ◌∷◌, ◌++◌, ◌≡◌, refl, sym, ◌∙◌, arith, Text, length, drop,
  replicate, ◌==◌, Bool-cases, All, All-drop, append_assoc, subst,
}
use gamegine.LineWriter.Defs.{LineWriter, append_repeated, append_char}
use gamegine.LineWriter.Plain.{is_control}
use gamegine.LineWriter.Swar.{IsByte}
use gamegine.LineWriter.Shows.{Shows}
use gamegine.LineWriter.Pads.{append_repeated-Shows, append_char-Shows}
use gamegine.LineWriter.Kept.{kept-append_repeated, kept-append_char}
use gamegine.LineWriter.Continued.{k_lf, starts_with, handle_control}
use gamegine.LineWriter.Continues.{continued_text, starts_with-newline}

module _ (column : ℕ) where
  -- What is written for a control character, and what is left behind it.
  pub record Handled (w : LineWriter) (s t : Text) (r : LineWriter × Text) : Type 0 where
    pub shown : Text
    pub shows : Shows r.0 (s ++ shown)
    pub spelled : continued_text column t ≡ shown ++ continued_text column r.1
    pub kept : length r.0.buffer ≡ length w.buffer
    pub shorter : length r.1 < length t
    pub bytes : All IsByte r.1

  newline-Handled :
      (w : LineWriter) (s t rest : Text)
      → Shows w s
      → All IsByte rest
      → length rest < length t
      → continued_text column t ≡ k_lf ∷ (replicate column b' ' ++ continued_text column rest)
      → Handled w s t (append_repeated (append_char w k_lf) b' ' column, rest)
  newline-Handled w s t rest v bytes short e = record {
    shown = k_lf ∷ replicate column b' ';
    shows =
        subst (Shows (append_repeated (append_char w k_lf) b' ' column))
          (append_assoc s (k_lf ∷ []) (replicate column b' '))
          (append_repeated-Shows b' ' column (append_char-Shows k_lf v));
    spelled = e;
    kept = kept-append_repeated (append_char w k_lf) b' ' column ∙ kept-append_char w k_lf;
    shorter = short;
    bytes = bytes;
  }

  other-Handled :
      (w : LineWriter) (s t rest : Text)
      → Shows w s
      → All IsByte rest
      → length rest < length t
      → continued_text column t ≡ b'?' ∷ continued_text column rest
      → Handled w s t (append_char w b'?', rest)
  other-Handled w s t rest v bytes short e = record {
    shown = b'?' ∷ [];
    shows = append_char-Shows b'?' v;
    spelled = e;
    kept = kept-append_char w b'?';
    shorter = short;
    bytes = bytes;
  }

  crlf-Handled :
      (w : LineWriter) (s rest : Text)
      → Shows w s
      → All IsByte rest
      → Handled w s (0x0D ∷ k_lf ∷ rest) (handle_control w (0x0D ∷ k_lf ∷ rest) column)
  unfolding handle_control
  crlf-Handled w s rest v bytes =
      newline-Handled w s (0x0D ∷ k_lf ∷ rest) rest v bytes (omega arith) refl

  lone-Handled :
      (w : LineWriter) (s t : Text)
      → Shows w s
      → All IsByte t
      → starts_with (k_lf ∷ []) t ≡ false
      → Handled w s (0x0D ∷ t) (handle_control w (0x0D ∷ t) column)
  unfolding handle_control
  lone-Handled w s t v bytes lone =
      let e : continued_text column (0x0D ∷ t) ≡ b'?' ∷ continued_text column t = rw lone refl in
      rw lone (other-Handled w s (0x0D ∷ t) t v bytes (omega arith) e)

  plain_control-Handled :
      (w : LineWriter) (s : Text) (c : ℕ) (t : Text)
      → Shows w s
      → All IsByte t
      → is_control c ≡ true
      → (c == 0x0A) ≡ false
      → (c == 0x0D) ≡ false
      → Handled w s (c ∷ t) (handle_control w (c ∷ t) column)
  unfolding handle_control
  plain_control-Handled w s c t v bytes control lf cr =
      let lf' : (0x0A == c) ≡ false = ground arith in
      let cr' : (0x0D == c) ≡ false = ground arith in
      let e : continued_text column (c ∷ t) ≡ b'?' ∷ continued_text column t =
        rw control (rw lf (rw cr refl)) in
      rw cr' (rw lf' (other-Handled w s (c ∷ t) t v bytes (omega arith) e))

  pub handle_control-Handled :
      (w : LineWriter) (s : Text) (c : ℕ) (t : Text)
      → Shows w s
      → All IsByte (c ∷ t)
      → is_control c ≡ true
      → Handled w s (c ∷ t) (handle_control w (c ∷ t) column)
  unfolding handle_control
  handle_control-Handled w s c t v (b, bytes) control = elim (Bool-cases (c == 0x0A)) [
    | inl lf ↦
        let here : c ≡ 0x0A = ground arith in
        rw here (newline-Handled w s (k_lf ∷ t) t v bytes (omega arith) refl)
    | inr nl ↦ elim (Bool-cases (c == 0x0D)) [
      | inl cr ↦
          let here : c ≡ 0x0D = ground arith in
          elim (Bool-cases (starts_with (k_lf ∷ []) t)) [
            | inl crlf ↦
                let newline = starts_with-newline t crlf in
                let handled : LineWriter → Text → Type 0 =
                  λ x u. Handled x s (0x0D ∷ u) (handle_control x (0x0D ∷ u) column) in
                rw here (
                  subst (handled w) (sym newline)
                    (crlf-Handled w s (drop 1 t) v (All-drop IsByte 1 t bytes)))
            | inr lone ↦ rw here (lone-Handled w s t v bytes lone)
          ]
      | inr other ↦ plain_control-Handled w s c t v bytes control nl other
    ]
  ]
