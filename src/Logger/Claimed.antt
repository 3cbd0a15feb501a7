-- ===== src/Logger/Claimed.antt =====
-- However registrations interleave with one another and with the frees, no slot is given twice.
use gamegine.Common.{
  ℕ, zero, suc, ◌+◌, ◌≤◌, inl, inr, Bool-cases, Option, none, some, List, [], ◌∷◌, ◌++◌, ◌≡◌, refl,
  sym, ap, ◌∙◌, arith, append_assoc, get_elem?, set, replicate, ◌==◌, if◌then◌else◌,
}
use mathlib.Core.Logic.{◌≢◌}
use gamegine.Logger.Claims.{
  Place, trying, got, no_slot, freed, Attempt, Table, at_place, Step, enters, takes, finds_taken,
  gives_up, frees, Run, stop, step_on,
}

-- One if a slot points to the producer.
abbrev is_pointer : Option ℕ → ℕ → ℕ
is_pointer none p = 0
is_pointer (some q) p = if q == p then 1 else 0

abbrev points : List (Option ℕ) → ℕ → ℕ → ℕ
points [] i p = 0
points (slot ∷ slots) zero p = is_pointer slot p
points (slot ∷ slots) (suc i) p = points slots i p

-- One if a registration of the first producer, at this place, got the slot and is of the second.
abbrev holds : Place → ℕ → ℕ → ℕ → ℕ
holds (trying i) q j p = 0
holds (got i) q j p = if i == j then is_pointer (some q) p else 0
holds no_slot q j p = 0
holds freed q j p = 0

-- How many registrations of the producer got the slot.
abbrev holders : List (Attempt ℕ) → ℕ → ℕ → ℕ
holders [] j p = 0
holders (a ∷ attempts) j p = holds a.place a.producer j p + holders attempts j p

holders-append :
    (first rest : List (Attempt ℕ)) (j p : ℕ)
    → holders (first ++ rest) j p ≡ holders first j p + holders rest j p
holders-append [] rest j p = omega arith
holders-append (a ∷ first) rest j p = omega (arith, holders-append first rest j p)

holds_self : (i p : ℕ) → holds (got i) p i p ≡ 1
holds_self i p = ground arith

holds-suc : (i p j q : ℕ) → holds (got (suc i)) p (suc j) q ≡ holds (got i) p j q
holds-suc i p j q = elim (Bool-cases (i == j)) [ inl e ↦ ground arith | inr e ↦ ground arith ]

is_pointer_max : (slot : Option ℕ) (p : ℕ) → is_pointer slot p ≤ 1
is_pointer_max none p = omega arith
is_pointer_max (some q) p = ground arith

points_max : (slots : List (Option ℕ)) (i p : ℕ) → points slots i p ≤ 1
points_max [] i p = omega arith
points_max (slot ∷ slots) zero p = is_pointer_max slot p
points_max (slot ∷ slots) (suc i) p = points_max slots i p

is_pointer_one : (slot : Option ℕ) (p : ℕ) → is_pointer slot p ≡ 1 → slot ≡ some p
is_pointer_one none p e = absurd (omega arith)
is_pointer_one (some q) p e = elim (Bool-cases (q == p)) [
  | inl same ↦ (let e' : q ≡ p = ground arith in ap some e')
  | inr other ↦ (let no = rw other at e in absurd (omega arith))
]

points_one :
    (slots : List (Option ℕ)) (i p : ℕ) → points slots i p ≡ 1 → get_elem? slots i ≡ some (some p)
points_one [] i p e = absurd (omega arith)
points_one (slot ∷ slots) zero p e = ap some (is_pointer_one slot p e)
points_one (slot ∷ slots) (suc i) p e = points_one slots i p e

-- A slot that is taken, and one that is given back.
points-set :
    (slots : List (Option ℕ)) (i p j q : ℕ)
    → get_elem? slots i ≡ some none
    → points (set slots i (some p)) j q ≡ holds (got i) p j q + points slots j q
points-set [] i p j q e = absurd (cc e)
points-set (slot ∷ slots) zero p zero q e = let free : slot ≡ none = cc e in rw free (omega arith)
points-set (slot ∷ slots) zero p (suc j) q e = ground arith
points-set (slot ∷ slots) (suc i) p zero q e = ground arith
points-set (slot ∷ slots) (suc i) p (suc j) q e =
    omega (arith, points-set slots i p j q e, holds-suc i p j q)

points-set_none :
    (slots : List (Option ℕ)) (i p j q : ℕ)
    → get_elem? slots i ≡ some (some p)
    → holds (got i) p j q + points (set slots i none) j q ≡ points slots j q
points-set_none [] i p j q e = absurd (cc e)
points-set_none (slot ∷ slots) zero p zero q e =
    let mine : slot ≡ some p = cc e in rw mine (omega arith)
points-set_none (slot ∷ slots) zero p (suc j) q e = ground arith
points-set_none (slot ∷ slots) (suc i) p zero q e = ground arith
points-set_none (slot ∷ slots) (suc i) p (suc j) q e =
    omega (arith, points-set_none slots i p j q e, holds-suc i p j q)

points_none : (n j q : ℕ) → points (replicate n none) j q ≡ 0
points_none zero j q = refl
points_none (suc n) zero q = refl
points_none (suc n) (suc j) q = points_none n j q

abbrev pub start : ℕ → Table ℕ
start n = record { slots = replicate n none; attempts = [] }

abbrev Matches : Table ℕ → Type 0
Matches s = (j q : ℕ) → holders s.attempts j q ≡ points s.slots j q

-- A registration that moves on from one place to another.
moved :
    (before after : List (Attempt ℕ)) (p : ℕ) (place place' : Place) (j q : ℕ)
    → holders (before ++ (at_place p place' ∷ after)) j q + holds place p j q
      ≡ holders (before ++ (at_place p place ∷ after)) j q + holds place' p j q
moved before after p place place' j q = omega (
  arith,
  holders-append before (at_place p place ∷ after) j q,
  holders-append before (at_place p place' ∷ after) j q,
)

holder_points :
    (s : Table ℕ) (before after : List (Attempt ℕ)) (p i : ℕ)
    → Matches s
    → s.attempts ≡ before ++ (at_place p (got i) ∷ after)
    → points s.slots i p ≡ 1
holder_points s before after p i m e = omega (
  arith,
  m i p,
  ap (λ those. holders those i p) e,
  holders-append before (at_place p (got i) ∷ after) i p,
  holds_self i p,
  points_max s.slots i p,
)

Step-Matches : (s s' : Table ℕ) → Step s s' → Matches s → Matches s'
Step-Matches _ _ (enters slots attempts p) m j q = omega (arith, m j q)
Step-Matches _ _ (takes slots before after p i e) m j q =
    omega (arith, m j q, moved before after p (trying i) (got i) j q, points-set slots i p j q e)
Step-Matches _ _ (finds_taken slots before after p r i e) m j q =
    omega (arith, m j q, moved before after p (trying i) (trying (i + 1)) j q)
Step-Matches _ _ (gives_up slots before after p i e) m j q =
    omega (arith, m j q, moved before after p (trying i) no_slot j q)
Step-Matches _ _ (frees slots before after p i) m j q =
    let s : Table ℕ = record { slots = slots; attempts = before ++ (at_place p (got i) ∷ after) } in
    let mine = points_one slots i p (holder_points s before after p i m refl) in
    omega (arith, m j q, moved before after p (got i) freed j q, points-set_none slots i p j q mine)

Run-Matches : (n : ℕ) (s : Table ℕ) → Run (start n) s → Matches s
Run-Matches n _ stop j q = sym (points_none n j q)
Run-Matches n s' (step_on s _ run step) j q = Step-Matches s s' step (Run-Matches n s run) j q

two_holders :
    (s : Table ℕ) (before middle after : List (Attempt ℕ)) (p q i j : ℕ)
    → Matches s
    → s.attempts ≡ before ++ (at_place p (got i) ∷ (middle ++ (at_place q (got j) ∷ after)))
    → i ≡ j
    → p ≡ q
    → ⊥
two_holders s before middle after p q i j m e same_slot same =
    let a = at_place p (got i) in
    let b = at_place q (got j) in
    let again : holds (got j) q i p ≡ 1 = rw (← same_slot, ← same) (holds_self i p) in
    absurd (
      omega (
        arith,
        m i p,
        ap (λ those. holders those i p) e,
        holders-append before (a ∷ (middle ++ (b ∷ after))) i p,
        holders-append middle (b ∷ after) i p,
        holds_self i p,
        again,
        points_max s.slots i p,
      ))

-- However the compare-exchanges of registrations interleave with one another and with the stores of
-- null that free producers, from slots that are all free: two registrations that got a slot, and
-- whose producers are not freed, have different slots, and each slot points to the producer of its
-- registration.
pub claims_apart :
    (n : ℕ) (s : Table ℕ) (before middle after : List (Attempt ℕ)) (p q i j : ℕ)
    → Run (start n) s
    → s.attempts ≡ before ++ (at_place p (got i) ∷ (middle ++ (at_place q (got j) ∷ after)))
    → (i ≢ j) × (get_elem? s.slots i ≡ some (some p)) × (get_elem? s.slots j ≡ some (some q))
claims_apart n s before middle after p q i j run e =
    let m = Run-Matches n s run in
    let a = at_place p (got i) in
    let b = at_place q (got j) in
    let e' = e ∙ sym (append_assoc before (a ∷ middle) (b ∷ after)) in
    let first = holder_points s before (middle ++ (b ∷ after)) p i m e in
    let second = holder_points s (before ++ (a ∷ middle)) after q j m e' in
    let at_first = points_one s.slots i p first in
    let at_second = points_one s.slots j q second in
    (
      λ same.
          two_holders s before middle after p q i j m e same
            (cc (sym at_first ∙ ap (get_elem? s.slots) same ∙ at_second)),
      at_first,
      at_second,
    )
