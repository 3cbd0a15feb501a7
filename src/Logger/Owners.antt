-- ===== src/Logger/Owners.antt =====
-- Which handle points to which slot: a slot with a live producer has one handle, any other slot none.
use gamegine.Common.{
  ℕ, zero, suc, ◌+◌, ◌≤◌, inl, inr, Option, none, some, List, [], ◌∷◌, ◌++◌, ◌≡◌, refl, sym, ap,
  ◌∙◌, arith, get_elem?, set, replicate, ◌==◌, if◌then◌else◌, Bool-cases,
}
use gamegine.LogRecord.{LogRecord}
use gamegine.Logger.Producer
use gamegine.Logger.Producer.{Phase, Producer, close}
use gamegine.Logger.Handle.{Handle, at_slot}

abbrev pub points_to : Option ℕ → ℕ → ℕ
points_to none i = 0
points_to (some j) i = if j == i then 1 else 0

-- How many handles point to a slot.
abbrev pub owners : List Handle → ℕ → ℕ
owners [] i = 0
owners (h ∷ hs) i = points_to h.producer i + owners hs i

abbrev pub liveness : Phase → ℕ
liveness Phase.live = 1
liveness Phase.closed = 0

abbrev pub liveness_of : Option Producer → ℕ
liveness_of none = 0
liveness_of (some p) = liveness p.phase

-- One if the slot holds a live producer.
abbrev pub live_at : List (Option Producer) → ℕ → ℕ
live_at [] i = 0
live_at (slot ∷ slots) zero = liveness_of slot
live_at (slot ∷ slots) (suc i) = live_at slots i

pub owners-append :
    (hs hs' : List Handle) (i : ℕ) → owners (hs ++ hs') i ≡ owners hs i + owners hs' i
owners-append [] hs' i = omega arith
owners-append (h ∷ hs) hs' i = omega (arith, owners-append hs hs' i)

pub points_to_self : (i : ℕ) → points_to (some i) i ≡ 1
points_to_self i = ground arith

points_to-suc : (i j : ℕ) → points_to (some (suc i)) (suc j) ≡ points_to (some i) j
points_to-suc i j = elim (Bool-cases (i == j)) [ inl e ↦ ground arith | inr e ↦ ground arith ]

points_to_zero_suc : (j : ℕ) → points_to (some 0) (suc j) ≡ 0
points_to_zero_suc j = ground arith

points_to-suc_zero : (i : ℕ) → points_to (some (suc i)) 0 ≡ 0
points_to-suc_zero i = ground arith

-- A fresh producer in a free slot.
pub live_at-set :
    (slots : List (Option Producer)) (i j : ℕ) (p : Producer)
    → get_elem? slots i ≡ some none
    → p.phase ≡ Phase.live
    → live_at (set slots i (some p)) j ≡ points_to (some i) j + live_at slots j
live_at-set [] i j p e live = absurd (cc e)
live_at-set (slot ∷ slots) zero zero p e live =
    let free : slot ≡ none = cc e in rw (live, free) refl
live_at-set (slot ∷ slots) zero (suc j) p e live = omega (arith, points_to_zero_suc j)
live_at-set (slot ∷ slots) (suc i) zero p e live = omega (arith, points_to-suc_zero i)
live_at-set (slot ∷ slots) (suc i) (suc j) p e live =
    omega (arith, live_at-set slots i j p e live, points_to-suc i j)

pub push-phase : (p : Producer) (r : LogRecord) → (Producer.push p r).phase ≡ p.phase
unfolding Producer.push
push-phase p r = ground arith

-- A push leaves the phases.
pub live_at-push :
    (slots : List (Option Producer)) (i j : ℕ) (r : LogRecord)
    → live_at (at_slot (λ q. Producer.push q r) slots i) j ≡ live_at slots j
live_at-push [] i j r = refl
live_at-push (none ∷ slots) zero j r = refl
live_at-push (some p ∷ slots) zero zero r = ap liveness (push-phase p r)
live_at-push (some p ∷ slots) zero (suc j) r = refl
live_at-push (slot ∷ slots) (suc i) zero r = refl
live_at-push (slot ∷ slots) (suc i) (suc j) r = live_at-push slots i j r

pub live_at-close :
    (slots : List (Option Producer)) (i j : ℕ)
    → live_at slots i ≡ 1
    → points_to (some i) j + live_at (at_slot close slots i) j ≡ live_at slots j
unfolding close
live_at-close [] i j e = absurd (omega arith)
live_at-close (none ∷ slots) zero j e = absurd (omega arith)
live_at-close (some p ∷ slots) zero zero e = sym e
live_at-close (some p ∷ slots) zero (suc j) e = omega (arith, points_to_zero_suc j)
live_at-close (slot ∷ slots) (suc i) zero e = omega (arith, points_to-suc_zero i)
live_at-close (slot ∷ slots) (suc i) (suc j) e =
    omega (arith, live_at-close slots i j e, points_to-suc i j)

-- A slot whose producer is live is one that holds one.
pub live_at-some :
    (slots : List (Option Producer)) (i : ℕ)
    → live_at slots i ≡ 1
    → (p : Producer) × (get_elem? slots i ≡ some (some p)) × (p.phase ≡ Phase.live)
live_at-some [] i e = absurd (omega arith)
live_at-some (none ∷ slots) zero e = absurd (omega arith)
live_at-some (some p ∷ slots) zero e = (p, refl, liveness-live p.phase e)
  where
    liveness-live : (phase : Phase) → liveness phase ≡ 1 → phase ≡ Phase.live
    liveness-live Phase.live e = refl
    liveness-live Phase.closed e = absurd (omega arith)
live_at-some (slot ∷ slots) (suc i) e = live_at-some slots i e

pub live_at_max : (slots : List (Option Producer)) (i : ℕ) → live_at slots i ≤ 1
live_at_max [] i = omega arith
live_at_max (none ∷ slots) zero = omega arith
live_at_max (some p ∷ slots) zero = liveness_max p.phase
  where
    liveness_max : (phase : Phase) → liveness phase ≤ 1
    liveness_max Phase.live = omega arith
    liveness_max Phase.closed = omega arith
live_at_max (slot ∷ slots) (suc i) = live_at_max slots i

pub live_at-free : (n i : ℕ) → live_at (replicate n none) i ≡ 0
live_at-free zero i = refl
live_at-free (suc n) zero = refl
live_at-free (suc n) (suc i) = live_at-free n i

-- Where each slot has as many handles as live producers, a handle points to a live one.
pub owner_live :
    (before : List Handle) (h : Handle) (after : List Handle) (slots : List (Option Producer))
    (i : ℕ)
    → ((j : ℕ) → owners (before ++ (h ∷ after)) j ≡ live_at slots j)
    → h.producer ≡ some i
    → live_at slots i ≡ 1
owner_live before h after slots i owned points =
    let mine : points_to h.producer i ≡ 1 = ap (λ t. points_to t i) points ∙ points_to_self i in
    omega (arith, owned i, owners-append before (h ∷ after) i, mine, live_at_max slots i)
