-- ===== src/Logger/Slots.antt =====
-- What a call on one slot does to the others.
use gamegine.Common.{
  ℕ, zero, suc, ◌≤◌, false, Option, none, some, List, [], ◌∷◌, ◌≡◌, refl, sym, ◌∙◌, arith,
  get_elem?, set, ◌==◌, All,
}
use gamegine.Logger.Producer.{Producer}
use gamegine.Logger.Handle.{at_slot}
use gamegine.Logger.Account.{IsSound, SlotIsSound, debt, debts}
use gamegine.Logger.Owners.{liveness_of, live_at}

pub at_slot_self :
    (f : Producer → Producer) (slots : List (Option Producer)) (i : ℕ) (p : Producer)
    → get_elem? slots i ≡ some (some p)
    → get_elem? (at_slot f slots i) i ≡ some (some (f p))
at_slot_self f [] i p e = absurd (cc e)
at_slot_self f (none ∷ slots) zero p e = absurd (cc e)
at_slot_self f (some q ∷ slots) zero p e = let same : q ≡ p = cc e in rw same refl
at_slot_self f (slot ∷ slots) (suc i) p e = at_slot_self f slots i p e

pub at_slot_other :
    (f : Producer → Producer) (slots : List (Option Producer)) (j i : ℕ)
    → (j == i) ≡ false
    → get_elem? (at_slot f slots j) i ≡ get_elem? slots i
at_slot_other f [] j i e = refl
at_slot_other f (none ∷ slots) zero i e = refl
at_slot_other f (some q ∷ slots) zero zero e = absurd (ground arith)
at_slot_other f (some q ∷ slots) zero (suc i) e = refl
at_slot_other f (slot ∷ slots) (suc j) zero e = refl
at_slot_other f (slot ∷ slots) (suc j) (suc i) e = at_slot_other f slots j i (ground arith)

pub set_free :
    (slots : List (Option Producer)) (i : ℕ) (p : Producer)
    → get_elem? slots i ≡ some none
    → get_elem? (set slots i (some p)) i ≡ some (some p)
set_free [] i p e = absurd (cc e)
set_free (slot ∷ slots) zero p e = refl
set_free (slot ∷ slots) (suc i) p e = set_free slots i p e

-- A free slot is not the one that holds a producer.
pub set_other :
    (slots : List (Option Producer)) (j i : ℕ) (q p : Producer)
    → get_elem? slots j ≡ some none
    → get_elem? slots i ≡ some (some p)
    → get_elem? (set slots j (some q)) i ≡ some (some p)
set_other [] j i q p free e = absurd (cc e)
set_other (slot ∷ slots) zero zero q p free e = absurd (cc (sym e ∙ free))
set_other (slot ∷ slots) zero (suc i) q p free e = e
set_other (slot ∷ slots) (suc j) zero q p free e = e
set_other (slot ∷ slots) (suc j) (suc i) q p free e = set_other slots j i q p free e

pub slot-IsSound :
    (n : ℕ) (slots : List (Option Producer)) (i : ℕ) (p : Producer)
    → get_elem? slots i ≡ some (some p)
    → All (SlotIsSound n) slots
    → IsSound n p
slot-IsSound n [] i p e s = absurd (cc e)
slot-IsSound n (none ∷ slots) zero p e s = absurd (cc e)
slot-IsSound n (some q ∷ slots) zero p e (s, rest) = let same : q ≡ p = cc e in rw (← same) s
slot-IsSound n (slot ∷ slots) (suc i) p e (s, rest) = slot-IsSound n slots i p e rest

pub slot_live :
    (slots : List (Option Producer)) (i : ℕ) (p : Producer)
    → get_elem? slots i ≡ some (some p)
    → live_at slots i ≡ liveness_of (some p)
slot_live [] i p e = absurd (cc e)
slot_live (none ∷ slots) zero p e = absurd (cc e)
slot_live (some q ∷ slots) zero p e = let same : q ≡ p = cc e in rw same refl
slot_live (slot ∷ slots) (suc i) p e = slot_live slots i p e

pub slot_owes :
    (slots : List (Option Producer)) (i : ℕ) (p : Producer)
    → get_elem? slots i ≡ some (some p)
    → debt p ≤ debts slots
slot_owes [] i p e = absurd (cc e)
slot_owes (none ∷ slots) zero p e = absurd (cc e)
slot_owes (some q ∷ slots) zero p e = let same : q ≡ p = cc e in rw (← same) (omega arith)
slot_owes (slot ∷ slots) (suc i) p e = omega (arith, slot_owes slots i p e)
