-- ===== src/LineWriter/ContinuedShows.antt =====
-- `append_continued` ends, and writes its text line under line.
use gamegine.Common.{
  ℕ, zero, suc, ◌≤◌, true, false, inl, inr, Option, some, [], ◌∷◌, ◌++◌, ◌≡◌, refl, sym, ap, ◌∙◌,
  arith, Text, length, take, drop, ◌==◌, Bool-cases, length-drop, take-append-drop, All, All-take,
  All-drop, append-nil, append_assoc, subst, sub64,
}
use gamegine.LineWriter.Defs.{LineWriter}
use gamegine.LineWriter.Plain.{append_plain}
use gamegine.LineWriter.Swar.{plain_run, IsByte}
use gamegine.LineWriter.Shows.{Shows}
use gamegine.LineWriter.Continued.{
  k_lf, k_crlf, ends_with, without_newline, handle_control, continued_loop, append_continued,
}
use gamegine.LineWriter.Continues.{continued_text, continued_text-plain, run-drop, plain_run-take}
use gamegine.LineWriter.PlainShows.{append_plain_lem}
use gamegine.LineWriter.Handled.{Handled, handle_control-Handled}

module _ (column : ℕ) where
  -- A run of the loop that ends, and what it writes.
  Ends : LineWriter → Text → Text → Option LineWriter → Type 0
  Ends w s t result =
      (w' : LineWriter) × (result ≡ some w')
      × Shows w' (s ++ continued_text column t)
      × (length w'.buffer ≡ length w.buffer)

  -- A pass that finds a control character, and then the rest of the passes.
  control-Ends :
      (w : LineWriter) (s t : Text) (w1 : LineWriter) (c : ℕ) (u : Text)
      (result : Option LineWriter)
      → length w1.buffer ≡ length w.buffer
      → drop (plain_run t) t ≡ c ∷ u
      → (h : Handled column w1
          (s ++ take (plain_run t) t)
          (c ∷ u)
          (handle_control w1 (c ∷ u) column))
      → Ends
          (handle_control w1 (c ∷ u) column).0
          ((s ++ take (plain_run t) t) ++ h.shown)
          (handle_control w1 (c ∷ u) column).1
          result
      → Ends w s t result
  unfolding Ends
  control-Ends w s t w1 c u result kept e h (w', returned, shows, kept') =
      let run = take (plain_run t) t in
      let left = continued_text column (handle_control w1 (c ∷ u) column).1 in
      let text : continued_text column t ≡ run ++ continued_text column (c ∷ u) =
        ap (continued_text column) (sym (take-append-drop (plain_run t) t))
        ∙ continued_text-plain column run (drop (plain_run t) t) (plain_run-take t)
        ∙ ap (λ x. run ++ continued_text column x) e in
      let all : ((s ++ run) ++ h.shown) ++ left ≡ s ++ continued_text column t =
        append_assoc (s ++ run) h.shown left
        ∙ ap (λ x. (s ++ run) ++ x) (sym h.spelled)
        ∙ append_assoc s run (continued_text column (c ∷ u))
        ∙ ap (λ x. s ++ x) (sym text) in
      (w', returned, subst (Shows w') all shows, kept' ∙ h.kept ∙ kept)

  pass-Ends :
      (passes : ℕ) (w : LineWriter) (s t : Text)
      → Shows w s
      → All IsByte t
      → (length t == 0) ≡ false
      → length t ≤ suc passes
      → ((w' : LineWriter) (s' t' : Text)
          → Shows w' s'
          → All IsByte t'
          → length t' ≤ passes
          → Ends w' s' t' (continued_loop passes w' t' column))
      → Ends w s t (continued_loop (suc passes) w t column)
  unfolding continued_loop
  pass-Ends passes w s t v bytes some_left short rest =
      let (kept, outcome) = append_plain_lem column w s t v bytes in
      let w1 = (append_plain w t).1 in
      elim outcome [
        | inr (whole, shows) ↦
            let end : (length t == length t) ≡ true = ground arith in
            rw some_left (rw whole (rw end (unfold Ends in (w1, refl, shows, kept))))
        | inl (stop, below, shows) ↦
            let (c, u, e, control) = run-drop t below in
            let on : (plain_run t == length t) ≡ false = ground arith in
            let size = length-drop (plain_run t) t in
            let byte : All IsByte (c ∷ u) =
              subst (All IsByte) e (All-drop IsByte (plain_run t) t bytes) in
            let h =
              handle_control-Handled column w1 (s ++ take (plain_run t) t) c u shows byte control in
            let next = handle_control w1 (c ∷ u) column in
            rw some_left (
              rw stop (
                rw on (
                  rw e (
                    control-Ends w s t w1 c u (continued_loop passes next.0 next.1 column) kept e h
                      (rest next.0 ((s ++ take (plain_run t) t) ++ h.shown) next.1 h.shows h.bytes
                        (omega (arith, h.shorter, ap length e)))))))
      ]

  continued_loop-Ends :
      (passes : ℕ) (w : LineWriter) (s t : Text)
      → Shows w s
      → All IsByte t
      → length t ≤ passes
      → Ends w s t (continued_loop passes w t column)
  unfolding Ends continued_loop
  continued_loop-Ends zero w s [] v bytes h =
      (w, refl, subst (Shows w) (sym (append-nil s)) v, refl)
  continued_loop-Ends (suc passes) w s [] v bytes h =
      (w, refl, subst (Shows w) (sym (append-nil s)) v, refl)
  continued_loop-Ends zero w s (c ∷ t) v bytes h = absurd (omega arith)
  continued_loop-Ends (suc passes) w s (c ∷ t) v bytes h =
      pass-Ends passes w s (c ∷ t) v bytes (ground arith) h (continued_loop-Ends passes)

  without_newline-IsByte : (t : Text) → All IsByte t → All IsByte (without_newline t)
  unfolding without_newline
  without_newline-IsByte t bytes = elim (Bool-cases (ends_with k_crlf t)) [
    | inl e ↦ rw e (All-take IsByte (sub64 (length t) 2) t bytes)
    | inr e ↦ elim (Bool-cases (ends_with (k_lf ∷ []) t)) [
      | inl f ↦ rw e (rw f (All-take IsByte (sub64 (length t) 1) t bytes))
      | inr f ↦ rw e (rw f bytes)
    ]
  ]

  -- Of a writer that shows `s`, `append_continued` with a text of bytes ends, and leaves a writer
  -- that shows `s` and then the text, less one trailing newline, with its lines under one another
  -- and its other control characters as `?`, cut at the buffer's end and marked as cut exactly when
  -- it does not fit.
  pub append_continued_lem :
      (w : LineWriter) (s t : Text)
      → Shows w s
      → All IsByte t
      → (w' : LineWriter) × (append_continued w t column ≡ some w')
        × Shows w' (s ++ continued_text column (without_newline t))
        × (length w'.buffer ≡ length w.buffer)
  unfolding append_continued Ends
  append_continued_lem w s t v bytes =
      continued_loop-Ends (length (without_newline t)) w s (without_newline t) v
        (without_newline-IsByte t bytes) (omega arith)
