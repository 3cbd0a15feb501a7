-- ===== src/Logger/Handles.antt =====
-- What the calls on a handle do to the slots, by the slot that it points to.
use gamegine.Common.{
  ℕ, ◌+◌, ◌≤◌, Option, none, some, List, ◌≡◌, refl, arith, get_elem?, true, inl, inr, ◌==◌,
  Bool-cases, All,
}
use gamegine.LogRecord.{LogRecord}
use gamegine.Logger.Producer
use gamegine.Logger.Producer.{Producer, close}
use gamegine.Logger.Handle.{Handle, at_slot, push_at, push_to, push, destroy}
use gamegine.Logger.Owners.{
  points_to, points_to_self, live_at, live_at-close, live_at-some, live_at_max,
}
use gamegine.Logger.Account.{SlotIsSound, debts, close-debts}

-- A call of `push` that returns found a producer in the slot of its handle.
pub record Found (producer : Option ℕ) (r : LogRecord) (slots slots' : List (Option Producer))
    : Type 0 where
  pub slot : ℕ
  pub found : Producer
  pub points : producer ≡ some slot
  pub holds : get_elem? slots slot ≡ some (some found)
  pub pushed : slots' ≡ at_slot (λ q. Producer.push q r) slots slot

push_at-Found :
    (r : LogRecord) (slots : List (Option Producer)) (i : ℕ) (got : Option (Option Producer))
    (slots' : List (Option Producer))
    → get_elem? slots i ≡ got
    → push_at r slots i got ≡ some slots'
    → Found (some i) r slots slots'
push_at-Found r slots i none slots' holds e = absurd (cc e)
push_at-Found r slots i (some none) slots' holds e = absurd (cc e)
push_at-Found r slots i (some (some p)) slots' holds e = record {
  slot = i;
  found = p;
  points = refl;
  holds = holds;
  pushed = cc e;
}

push_to-Found :
    (r : LogRecord) (slots : List (Option Producer)) (producer : Option ℕ)
    (slots' : List (Option Producer))
    → push_to r slots producer ≡ some slots'
    → Found producer r slots slots'
push_to-Found r slots none slots' e = absurd (cc e)
push_to-Found r slots (some i) slots' e = push_at-Found r slots i (get_elem? slots i) slots' refl e

pub push-Found :
    (thread : ℕ) (h : Handle) (r : LogRecord) (slots slots' : List (Option Producer))
    → push thread h r slots ≡ some slots'
    → Found h.producer r slots slots'
unfolding push
push-Found thread h r slots slots' e = elim (Bool-cases (h.owner == thread)) [
  | inl mine ↦ push_to-Found r slots h.producer slots' (rw mine at e)
  | inr other ↦ (let no = rw other at e in absurd (cc no))
]

-- A handle that points to a live producer pushes into it.
pub push_works :
    (h : Handle) (i : ℕ) (r : LogRecord) (slots : List (Option Producer))
    → h.producer ≡ some i
    → live_at slots i ≡ 1
    → push h.owner h r slots ≡ some (at_slot (λ q. Producer.push q r) slots i)
unfolding push
push_works h i r slots e live =
    let (p, holds, phase) = live_at-some slots i live in
    let mine : (h.owner == h.owner) ≡ true = ground arith in rw (mine, e, holds) refl

close_at-live :
    (producer : Option ℕ) (owner : ℕ) (slots : List (Option Producer)) (j : ℕ)
    → ((i : ℕ) → points_to producer i ≤ live_at slots i)
    → points_to producer j
        + live_at (destroy (record { producer = producer; owner = owner }) slots) j
      ≡ live_at slots j
unfolding destroy
close_at-live none owner slots j h = omega arith
close_at-live (some i) owner slots j h =
    live_at-close slots i j (omega (arith, h i, points_to_self i, live_at_max slots i))

-- The slot of a handle that is destroyed is not live any more.
pub destroy-live :
    (h : Handle) (slots : List (Option Producer)) (j : ℕ)
    → ((i : ℕ) → points_to h.producer i ≤ live_at slots i)
    → points_to h.producer j + live_at (destroy h slots) j ≡ live_at slots j
destroy-live h slots j le = close_at-live h.producer h.owner slots j le

close_at-debts :
    (n : ℕ) (producer : Option ℕ) (owner : ℕ) (slots : List (Option Producer))
    → All (SlotIsSound n) slots
    → All (SlotIsSound n) (destroy (record { producer = producer; owner = owner }) slots)
      × (debts (destroy (record { producer = producer; owner = owner }) slots) ≡ debts slots)
unfolding destroy
close_at-debts n none owner slots s = (s, refl)
close_at-debts n (some i) owner slots s = close-debts n slots i s

pub destroy-debts :
    (n : ℕ) (h : Handle) (slots : List (Option Producer))
    → All (SlotIsSound n) slots
    → All (SlotIsSound n) (destroy h slots) × (debts (destroy h slots) ≡ debts slots)
destroy-debts n h slots s = close_at-debts n h.producer h.owner slots s
