-- ===== src/LogMessageCatalog/Parts.antt =====
-- A text that compiles is its prefix, its placeholder and its suffix.
use mathlib.Core.Path.{subst}
use gamegine.Common.{
  ℕ, suc, ◌+◌, ◌≤◌, Bool, true, false, ◌||◌, Option, none, some, [], ◌∷◌, ◌++◌, ◌≡◌, ◌⊎◌, refl, sym,
  ap, ◌∙◌, Text, take, drop, if◌then◌else◌, All, arith, inl, inr, Bool-cases, append-nil,
}
use gamegine.LogMessage.Enums.{Argument}
use gamegine.LogMessageCatalog.Split.{
  LogMessageText, k_placeholder, starts, unprintable, is_brace, scan, same, is_some, agrees,
  is_valid, next, find, split, make,
}

abbrev pub IsPrintable : ℕ → Type 0
IsPrintable c = (b' ' ≤ c) × (c ≤ b'~')

abbrev found : Option ℕ → Bool
found none = false
found (some i) = true

found-next : (o : Option ℕ) → found (next o) ≡ found o
found-next none = refl
found-next (some i) = refl

abbrev index : Option ℕ → ℕ
index none = 0
index (some i) = i

abbrev seen_of : Option (ℕ × Bool) → Bool
seen_of none = false
seen_of (some (braces, seen)) = seen

starts-eq : (text : Text) → starts text ≡ true → text ≡ k_placeholder ++ drop 2 text
starts-eq (c ∷ d ∷ text) h =
    let first : c ≡ b'{' = ground arith in
    let second : d ≡ b'}' = ground arith in λ i. first i ∷ (second i ∷ text)
starts-eq [] h = absurd (ground arith)
starts-eq (c ∷ []) h = absurd (ground arith)

-- Where the first placeholder is: here, or one further on in the rest.
find-cases :
    (b : Bool) (o : Option ℕ) (i : ℕ)
    → (if b then some 0 else next o) ≡ some i
    → ((b ≡ true) × (i ≡ 0)) ⊎ ((j : ℕ) × (o ≡ some j) × (i ≡ suc j))
find-cases true o i h = inl (refl, ap index (sym h))
find-cases false none i h = absurd (ground arith)
find-cases false (some j) i h = inr (j, refl, ap index (sym h))

find-split :
    (text : Text) (i : ℕ)
    → find text ≡ some i
    → text ≡ take i text ++ (k_placeholder ++ drop (i + 2) text)
unfolding find
find-split [] i h = absurd (ground arith)
find-split (c ∷ text) i h = elim (find-cases (starts (c ∷ text)) (find text) i h) [
  | inl (e, z) ↦ rw z (starts-eq (c ∷ text) e)
  | inr (j, e, z) ↦
      let e' : suc j + 2 ≡ suc (j + 2) = omega arith in
      rw (z, e') (ap (λ t. c ∷ t) (find-split text j e))
]

not_brace_starts : (c : ℕ) (text : Text) → is_brace c ≡ false → starts (c ∷ text) ≡ false
not_brace_starts c [] h = refl
not_brace_starts c (d ∷ text) h = ground arith

-- A round that goes on has seen a printable character.
scan-cases :
    (u : Bool) (o : Option (ℕ × Bool)) (r : ℕ × Bool)
    → (if u then none else o) ≡ some r
    → (u ≡ false) × (o ≡ some r)
scan-cases true o r h = absurd (ground arith)
scan-cases false o r h = (refl, h)

found-cons :
    (c : ℕ) (text : Text) (seen : Bool)
    → ((if is_brace c then seen || starts (c ∷ text) else seen) || found (find text))
      ≡ (seen || found (find (c ∷ text)))
unfolding find
found-cons c text seen = elim (Bool-cases (starts (c ∷ text))) [
  | inl e ↦ elim (Bool-cases (is_brace c)) [
    | inl f ↦ rw f (rw e (ground arith))
    | inr f ↦ absurd (ground (arith, not_brace_starts c text f))
  ]
  | inr e ↦ rw e (rw (found-next (find text)) (ground arith))
]

-- The loop of `is_valid` goes through printable characters and sees the placeholder that `find` finds.
scan-find :
    (text : Text) (braces : ℕ) (seen : Bool) (r : ℕ × Bool)
    → scan text braces seen ≡ some r
    → All IsPrintable text × (r.1 ≡ (seen || found (find text)))
unfolding scan find
scan-find [] braces seen r h = (tt, ap seen_of (sym h) ∙ ground arith)
scan-find (c ∷ text) braces seen r h =
    let (fine, rest) = scan-cases (unprintable c) _ r h in
    let (all, e) = scan-find text _ _ r rest in
    (((ground arith, ground arith), all), e ∙ found-cons c text seen)

-- What `is_valid` asks of the counts.
agrees-scan :
    (text : Text) (a : Argument) (o : Option (ℕ × Bool))
    → scan text 0 false ≡ o
    → agrees a o ≡ true
    → All IsPrintable text × (is_some a ≡ found (find text))
agrees-scan text a none e h = absurd (ground arith)
agrees-scan text a (some (braces, seen)) e h =
    let (all, f) = scan-find text 0 false (braces, seen) e in
    (all, same-eq seen (is_some a) (ground arith) ∙ f)
  where
    same-eq : (x y : Bool) → same x y ≡ true → y ≡ x
    same-eq true y e = e
    same-eq false true e = sym e
    same-eq false false e = refl

parts :
    (text : Text) (a : Argument) (o : Option ℕ)
    → find text ≡ o
    → is_some a ≡ found o
    → text
      ≡ (split text a o).prefix
        ++ ((if is_some a then k_placeholder else []) ++ (split text a o).suffix)
parts text a none e h = rw h (sym (append-nil text))
parts text a (some i) e h = rw h (find-split text i e)

accepted :
    {X : Type 0} (b : Bool) (x y : X) → (if b then some x else none) ≡ some y → (b ≡ true) × (x ≡ y)
accepted {X = X} true x y h = (refl, ap (from x) h)
  where
    from : X → Option X → X
    from d none = d
    from d (some z) = z
accepted false x y h = absurd (ground arith)

not_refused : (b c : Bool) → (if b then false else c) ≡ true → c ≡ true
not_refused true c h = absurd (ground arith)
not_refused false c h = h

argument-split : (text : Text) (a : Argument) (o : Option ℕ) → (split text a o).argument ≡ a
argument-split text a none = refl
argument-split text a (some i) = refl

-- A text that compiles for an argument is its prefix, the placeholder if there is an argument, and
-- its suffix; it holds printable characters only, and it keeps the argument.
pub make-parts :
    (text : Text) (a : Argument) (t : LogMessageText)
    → make text a ≡ some t
    → (text ≡ t.prefix ++ ((if is_some a then k_placeholder else []) ++ t.suffix))
      × All IsPrintable text
      × (t.argument ≡ a)
unfolding make is_valid
make-parts text a t h =
    let (valid, same_text) = accepted (is_valid text a) (split text a (find text)) t h in
    let (all, e) = agrees-scan text a (scan text 0 false) refl (not_refused _ _ valid) in
    subst
      (λ u.
        (text ≡ u.prefix ++ ((if is_some a then k_placeholder else []) ++ u.suffix))
        × All IsPrintable text
        × (u.argument ≡ a))
      same_text (parts text a (find text) refl e, all, argument-split text a (find text))
