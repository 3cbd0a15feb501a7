-- ===== src/LineWriter/PlainShows.antt =====
-- `append_plain` in front of a control character, and at the end of the text or of the buffer.
use gamegine.Common.{
  ℕ, ◌+◌, ◌≤◌, ◌<◌, min, Bool, true, inl, inr, ◌⊎◌, [], ◌∷◌, ◌++◌, ◌≡◌, refl, sym, ap, ◌∙◌, arith,
  Text, length, take, drop, ltb, if◌then◌else◌, Bool-cases, length-append, length-take, take-take,
  take_of_le, take-append-drop, take-append_add, length-drop, All, All-take, append-nil, ltb→lt,
  ltb_false→le, add64,
}
use gamegine.LineWriter.Defs.{LineWriter, room, view}
use gamegine.LineWriter.Plain.{append_plain, copy_plain}
use gamegine.LineWriter.Swar.{plain_run, IsByte}
use gamegine.LineWriter.CopyPlain.{
  IsPlainCopy, copy_plain-IsPlainCopy, plain_run-le, plain_run-append_lt,
}
use gamegine.LineWriter.Shows.{Shows, Grew, Grew-Shows, room-eq-sub}
use gamegine.LineWriter.Continues.{continued_text, continued_text-plain, continued_text-pos}

nonempty : (t : Text) → 0 < length t → (c : ℕ) × (rest : Text) × (t ≡ c ∷ rest)
nonempty [] h = absurd (omega arith)
nonempty (c ∷ t) h = (c, t, refl)

module _ (column : ℕ) (w : LineWriter) (s t : Text) (v : Shows w s) (bytes : All IsByte t) where
  abbrev fitting : Text
  fitting = take (room w) t

  copy_fits : IsPlainCopy w.buffer w.size 0 fitting (copy_plain w.buffer w.size fitting)
  copy_fits =
      copy_plain-IsPlainCopy w.buffer w.size fitting (All-take IsByte (room w) t bytes)
        (omega (arith, room-eq-sub w v.within v.addressable, length-take (room w) t, v.within))

  -- What `append_plain` writes, by what it returns.
  abbrev pub PlainOutcome : ℕ × LineWriter → Type 0
  PlainOutcome r =
      (length r.1.buffer ≡ length w.buffer)
      × (((r.0 ≡ plain_run t) × (plain_run t < length t) × Shows r.1 (s ++ take (plain_run t) t))
          ⊎ ((r.0 ≡ length t) × Shows r.1 (s ++ continued_text column t)))

  abbrev run : ℕ
  run = plain_run fitting

  abbrev buffer : Text
  buffer = (copy_plain w.buffer w.size fitting).0

  -- A writer with the copied run is one that was given any text of which as much is seen.
  copy-Grew :
      (u : Text) (cut : Bool)
      → take (room w) u ≡ take run fitting
      → min (length u) (room w) ≡ run
      → cut ≡ (if ltb (room w) (length u) then true else w.truncated)
      → Grew w (record { buffer = buffer; size = add64 w.size run; truncated = cut }) u
  unfolding view
  copy-Grew u cut seen taken marked =
      let c = copy_fits in
      let no_wrap : add64 w.size run ≡ w.size + run =
        omega (arith, room-eq-sub w v.within v.addressable, v.within, v.addressable) in
      record {
        kept = c.same_length;
        grown = no_wrap ∙ ap (λ (n : ℕ). w.size + n) (sym taken);
        wrote = rw (no_wrap, seen) c.copied;
        cut = marked;
      }

  -- The run ends in the part of the text that fits.
  stops-Shows :
      run < length fitting
      → (run ≡ plain_run t)
        × (plain_run t < length t)
        × Shows
            (record { buffer = buffer; size = add64 w.size run; truncated = w.truncated })
            (s ++ take (plain_run t) t)
  stops-Shows h =
      let whole : run ≡ plain_run t =
        sym (plain_run-append_lt fitting (drop (room w) t) h)
        ∙ ap plain_run (take-append-drop (room w) t) in
      let short = length-take (room w) t in
      let size = length-take (plain_run t) t in
      (
        whole,
        omega arith,
        Grew-Shows v (
            copy-Grew (take (plain_run t) t) w.truncated
              (take_of_le (room w) (take (plain_run t) t) (omega arith)
                ∙ ap (λ (n : ℕ). take n t) (sym whole)
                ∙ sym (take-take run (room w) t (omega arith)))
              (omega arith) (ground arith)),
      )

  -- The whole text fits, and is plain.
  whole-Shows :
      run ≡ length fitting
      → length t ≤ room w
      → Shows
          (record { buffer = buffer; size = add64 w.size run; truncated = w.truncated })
          (s ++ continued_text column t)
  whole-Shows h fits =
      let same : fitting ≡ t = take_of_le (room w) t fits in
      let plain : plain_run t ≡ length t = ap plain_run (sym same) ∙ h ∙ ap length same in
      let text : continued_text column t ≡ t =
        ap (continued_text column) (sym (append-nil t))
        ∙ continued_text-plain column t [] plain
        ∙ append-nil t in
      rw text (
        Grew-Shows v (
          copy-Grew t w.truncated (sym (take_of_le run fitting (omega arith)))
            (omega (arith, ap length same)) (ground arith)))

  -- What fits is plain, and the rest is cut.
  cut-Shows :
      run ≡ length fitting
      → room w < length t
      → Shows
          (record { buffer = buffer; size = add64 w.size run; truncated = true })
          (s ++ continued_text column t)
  cut-Shows h over =
      let left = drop (room w) t in
      let size = length-take (room w) t in
      let (c, rest, e) = nonempty left (omega (arith, length-drop (room w) t)) in
      let text : continued_text column t ≡ fitting ++ continued_text column left =
        ap (continued_text column) (sym (take-append-drop (room w) t))
        ∙ continued_text-plain column fitting left h in
      let more : 0 < length (continued_text column left) =
        rw e (continued_text-pos column c rest) in
      let long = ap length text in
      let joined = length-append fitting (continued_text column left) in
      Grew-Shows v (
        copy-Grew (continued_text column t) true
          (ap (take (room w)) text
            ∙ take-append_add fitting (continued_text column left) 0 (omega arith)
            ∙ append-nil fitting
            ∙ sym (take_of_le run fitting (omega arith)))
          (omega arith) (ground arith))

  pub append_plain_lem : PlainOutcome (append_plain w t)
  unfolding append_plain
  append_plain_lem =
      let c = copy_fits in
      let returned : (copy_plain w.buffer w.size fitting).1 ≡ run = c.returned ∙ omega arith in
      let most = plain_run-le fitting in
      let short = length-take (room w) t in
      elim (Bool-cases (ltb run (length fitting))) [
        | inl stops ↦
            rw returned
              (rw stops (c.same_length, inl (stops-Shows (ltb→lt run (length fitting) stops))))
        | inr goes ↦
            let all_plain : run ≡ length fitting =
              (let less = ltb_false→le run (length fitting) goes in omega arith) in
            elim (Bool-cases (ltb (length fitting) (length t))) [
              | inl over ↦ rw returned (
                  rw goes (
                    rw over (
                      c.same_length,
                      inr (
                        refl,
                        cut-Shows all_plain
                            (let more = ltb→lt (length fitting) (length t) over in omega arith),
                      ),
                    )))
              | inr fits ↦ rw returned (
                  rw goes (
                    rw fits (
                      c.same_length,
                      inr (
                        refl,
                        whole-Shows all_plain (
                            let less = ltb_false→le (length fitting) (length t) fits in
                            omega arith),
                      ),
                    )))
            ]
      ]
