-- ===== src/LineWriter/Continues.antt =====
-- What `append_continued` is to write, character by character.
use gamegine.Common.{
  ℕ, suc, ◌<◌, Bool, true, false, inl, inr, [], ◌∷◌, ◌++◌, ◌≡◌, refl, ap, arith, Text, length, take,
  drop, replicate, ◌==◌, if◌then◌else◌, ◌&&◌, Bool-cases,
}
use gamegine.LineWriter.Plain.{is_control}
use gamegine.LineWriter.Swar.{plain_run}
use gamegine.LineWriter.Continued.{starts_with, k_lf}

-- The lines of a text, each after the first behind `column` spaces: a newline, with the carriage return
-- in front of it if there is one, begins a line, and any other control character is a `?`.
abbrev pub continued_text : ℕ → Text → Text
continued_text column [] = []
continued_text column (c ∷ t) =
    let rest = continued_text column t in
    if is_control c
    then (if c == 0x0A
        then c ∷ (replicate column b' ' ++ rest)
        else if c == 0x0D && starts_with (k_lf ∷ []) t
        then rest
        else b'?' ∷ rest)
    else c ∷ rest

pub continued_text-plain :
    (column : ℕ) (s t : Text)
    → plain_run s ≡ length s
    → continued_text column (s ++ t) ≡ s ++ continued_text column t
continued_text-plain column [] t h = refl
continued_text-plain column (c ∷ s) t h = elim (Bool-cases (is_control c)) [
  | inl e ↦ (let no : 0 ≡ suc (length s) = (rw e at h) in absurd (omega (arith, no)))
  | inr e ↦ rw e (
      ap (λ u. c ∷ u)
        (continued_text-plain column s t
          (let yes : suc (plain_run s) ≡ suc (length s) = (rw e at h) in omega (arith, yes))))
]

pub both : (a b : Bool) → a && b ≡ true → (a ≡ true) × (b ≡ true)
both true b e = (refl, e)
both false b e = absurd (cc e)

-- A text that starts with a newline.
pub starts_with-newline : (t : Text) → starts_with (k_lf ∷ []) t ≡ true → t ≡ k_lf ∷ drop 1 t
starts_with-newline [] e = absurd (cc e)
starts_with-newline (c ∷ t) e = elim (Bool-cases (0x0A == c)) [
  | inl same ↦ (let here : c ≡ 0x0A = ground arith in rw here refl)
  | inr other ↦ (let no : false ≡ true = (rw other at e) in absurd (cc no))
]

-- Something is written of every text.
pub continued_text-pos : (column c : ℕ) (t : Text) → 0 < length (continued_text column (c ∷ t))
continued_text-pos column c t = elim (Bool-cases (is_control c)) [
  | inr e ↦ rw e (omega arith)
  | inl e ↦ elim (Bool-cases (c == 0x0A)) [
    | inl lf ↦ rw e (rw lf (omega arith))
    | inr nl ↦ elim (Bool-cases (c == 0x0D && starts_with (k_lf ∷ []) t)) [
      | inr other ↦ rw e (rw nl (rw other (omega arith)))
      | inl crlf ↦
          let newline =
            starts_with-newline t (both (c == 0x0D) (starts_with (k_lf ∷ []) t) crlf).1 in
          rw e (rw nl (rw crlf (rw newline (omega arith))))
    ]
  ]
]

-- The character that ends a plain run.
pub run-drop :
    (t : Text)
    → plain_run t < length t
    → (c : ℕ) × (rest : Text) × (drop (plain_run t) t ≡ c ∷ rest) × (is_control c ≡ true)
run-drop [] h = absurd (omega arith)
run-drop (c ∷ t) h = elim (Bool-cases (is_control c)) [
  | inl e ↦ rw e (c, t, refl, e)
  | inr e ↦
      let h' : plain_run t < length t =
        (let k : suc (plain_run t) < suc (length t) = (rw e at h) in omega (arith, k)) in
      rw e (run-drop t h')
]

pub plain_run-take : (t : Text) → plain_run (take (plain_run t) t) ≡ length (take (plain_run t) t)
plain_run-take [] = refl
plain_run-take (c ∷ t) = elim (Bool-cases (is_control c)) [
  | inl e ↦ rw e refl
  | inr e ↦ rw e (rw e (ap suc (plain_run-take t)))
]
