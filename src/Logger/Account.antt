-- ===== src/Logger/Account.antt =====
-- What a producer owes: its records that wait, and its drops that no line reports yet.
use gamegine.Common.{
  ℕ, zero, suc, ◌+◌, ◌-◌, ◌≤◌, ◌<◌, ◌^◌, inl, inr, Bool-cases, Option, none, some, List, [], ◌∷◌,
  ◌≡◌, refl, ap, arith, Text, length, length-append, length-take, get_elem?, set, replicate, All,
}
use gamegine.LogRecord.{LogRecord}
use gamegine.SpscRing.Value.{try_push}
use gamegine.SpscRing.Valid
use gamegine.SpscRing.Valid.{length-contents, fresh-IsValid}
use gamegine.Logger.Producer
use gamegine.Logger.Producer.{Producer, close, blank, k_ring_bits}
use gamegine.Logger.Drained.{waiting}
use gamegine.Logger.Ledger.{push-cases}
use gamegine.Logger.Handle.{at_slot}

-- A producer of a logger that was given so many records.
pub record IsSound (logged : ℕ) (p : Producer) : Type 0 where
  pub ring : Valid.IsValid k_ring_bits p.ring
  pub name : length p.name ≤ 16
  pub reported : p.reported ≤ p.dropped
  pub dropped : p.dropped ≤ logged

abbrev pub debt : Producer → ℕ
debt p = length (waiting p) + (p.dropped - p.reported)

abbrev pub SlotIsSound : ℕ → Option Producer → Type 0
SlotIsSound n none = Unit
SlotIsSound n (some p) = IsSound n p

abbrev pub slot_debt : Option Producer → ℕ
slot_debt none = 0
slot_debt (some p) = debt p

abbrev pub debts : List (Option Producer) → ℕ
debts [] = 0
debts (slot ∷ slots) = slot_debt slot + debts slots

pub later-IsSound : (n : ℕ) (p : Producer) → IsSound n p → IsSound (n + 1) p
later-IsSound n p s = record {
  ring = s.ring;
  name = s.name;
  reported = s.reported;
  dropped = omega (arith, s.dropped);
}

later-SlotIsSound : (n : ℕ) (slot : Option Producer) → SlotIsSound n slot → SlotIsSound (n + 1) slot
later-SlotIsSound n none s = tt
later-SlotIsSound n (some p) s = later-IsSound n p s

pub later_sound :
    (n : ℕ) (slots : List (Option Producer))
    → All (SlotIsSound n) slots
    → All (SlotIsSound (n + 1)) slots
later_sound n [] s = tt
later_sound n (slot ∷ slots) (s, rest) = (later-SlotIsSound n slot s, later_sound n slots rest)

pub make-IsSound :
    (n : ℕ) (name : Text) → IsSound n (Producer.make name) × (debt (Producer.make name) ≡ 0)
unfolding Producer.make
make-IsSound n name =
    let (v, empty) = fresh-IsValid blank k_ring_bits (omega arith) in
    (
      record {
        ring = v;
        name = omega (arith, length-take 16 name);
        reported = omega arith;
        dropped = omega arith;
      },
      omega (arith, ap length empty),
    )

pub push-kept :
    (p : Producer) (r : LogRecord)
    → ((Producer.push p r).name ≡ p.name) × ((Producer.push p r).reported ≡ p.reported)
unfolding Producer.push
push-kept p r = elim (Bool-cases (try_push k_ring_bits p.ring r).0) [
  | inl e ↦ rw e (refl, refl)
  | inr e ↦ rw e (refl, refl)
]

-- A push of a record makes the debt one more.
pub push-IsSound :
    (n : ℕ) (p : Producer) (r : LogRecord)
    → n + 1 < 2 ^ 64
    → IsSound n p
    → IsSound (n + 1) (Producer.push p r) × (debt (Producer.push p r) ≡ debt p + 1)
push-IsSound n p r small s =
    let (v, cases) = push-cases p r s.ring in
    let (name, reported) = push-kept p r in
    let h = s.name in
    let h1 = s.reported in
    let h2 = s.dropped in
    let short : length (Producer.push p r).name ≤ 16 = rw name h in
    elim cases [
      | inl (_, w, d) ↦ (
        record { ring = v; name = short; reported = omega arith; dropped = omega arith },
        omega (arith, ap length w, length-append (waiting p) (r ∷ [])),
      )
      | inr (_, _, w, d) ↦ (
        record { ring = v; name = short; reported = omega arith; dropped = omega arith },
        omega (arith, ap length w),
      )
    ]

pub push-debts :
    (n : ℕ) (slots : List (Option Producer)) (i : ℕ) (p : Producer) (r : LogRecord)
    → n + 1 < 2 ^ 64
    → get_elem? slots i ≡ some (some p)
    → All (SlotIsSound n) slots
    → All (SlotIsSound (n + 1)) (at_slot (λ q. Producer.push q r) slots i)
      × (debts (at_slot (λ q. Producer.push q r) slots i) ≡ debts slots + 1)
push-debts n [] i p r small e s = absurd (cc e)
push-debts n (none ∷ slots) zero p r small e s = absurd (cc e)
push-debts n (some q ∷ slots) zero p r small e (s, rest) =
    let (s', more) = push-IsSound n q r small s in ((s', later_sound n slots rest), omega arith)
push-debts n (slot ∷ slots) (suc i) p r small e (s, rest) =
    let (rest', more) = push-debts n slots i p r small e rest in
    ((later-SlotIsSound n slot s, rest'), omega arith)

pub close-debts :
    (n : ℕ) (slots : List (Option Producer)) (i : ℕ)
    → All (SlotIsSound n) slots
    → All (SlotIsSound n) (at_slot close slots i) × (debts (at_slot close slots i) ≡ debts slots)
unfolding close
close-debts n [] i s = (tt, refl)
close-debts n (none ∷ slots) zero s = (s, refl)
close-debts n (some p ∷ slots) zero (s, rest) = (
  (record { ring = s.ring; name = s.name; reported = s.reported; dropped = s.dropped }, rest),
  refl,
)
close-debts n (slot ∷ slots) (suc i) (s, rest) =
    let (rest', same) = close-debts n slots i rest in ((s, rest'), omega arith)

pub set-debts :
    (n : ℕ) (slots : List (Option Producer)) (i : ℕ) (p : Producer)
    → get_elem? slots i ≡ some none
    → IsSound n p
    → debt p ≡ 0
    → All (SlotIsSound n) slots
    → All (SlotIsSound n) (set slots i (some p)) × (debts (set slots i (some p)) ≡ debts slots)
set-debts n [] i p e h z s = absurd (cc e)
set-debts n (slot ∷ slots) zero p e h z (s, rest) =
    let free : slot ≡ none = cc e in ((h, rest), rw free (omega arith))
set-debts n (slot ∷ slots) (suc i) p e h z (s, rest) =
    let (rest', same) = set-debts n slots i p e h z rest in ((s, rest'), omega arith)

pub free-debts : (n k : ℕ) → All (SlotIsSound n) (replicate k none) × (debts (replicate k none) ≡ 0)
free-debts n zero = (tt, refl)
free-debts n (suc k) = let (s, z) = free-debts n k in ((tt, s), omega arith)
