-- ===== src/Logger/Told.antt =====
-- What a pass tells of the producer in one slot, among all that it writes.
use gamegine.Common.{
  ℕ, zero, suc, ◌+◌, ◌-◌, ◌<◌, ◌^◌, Bool, ◌||◌, Option, none, some, List, [], ◌∷◌, ◌≡◌, refl, sym,
  ◌∙◌, arith, Text, All, get_elem?, append-nil, subst,
}
use gamegine.Clock.{TickConversion}
use gamegine.LogRecord.{LogRecord}
use gamegine.Logger.Output.{Output}
use gamegine.Logger.Written
use gamegine.Logger.Written.{flush-IsValid}
use gamegine.Logger.Producer.{Phase, Producer}
use gamegine.Logger.Drain.{drain_one}
use gamegine.Logger.Drained.{waiting}
use gamegine.Logger.State.{after_drain, drain_slots}
use gamegine.Logger.Account.{SlotIsSound, debts}
use gamegine.Logger.Pieces.{nothing-Pays}
use gamegine.Logger.Entries.{Tells, others_tell, forgets, then-Tells}
use gamegine.Logger.Paid.{Paid, drain_one-Tells}
use gamegine.Logger.Passes.{drain_slots-Drained}

-- What is left of a producer's slot after a pass, by its phase.
pub data Remains (p : Producer) : Option Producer → Type 0 where
  stays :
      (q : Producer)
      → p.phase ≡ Phase.live
      → q.phase ≡ Phase.live
      → q.name ≡ p.name
      → waiting q ≡ []
      → q.reported ≡ q.dropped
      → Remains p (some q)
  freed : p.phase ≡ Phase.closed → Remains p none

after_drain-Remains :
    (n : ℕ) (p : Producer) (told phase : Phase) (q : Producer)
    → told ≡ phase
    → p.phase ≡ phase
    → Paid n p told q
    → Remains p (after_drain told q)
after_drain-Remains n p Phase.live phase q t f paid =
    let live = f ∙ sym t in stays q live (paid.phase ∙ live) paid.name paid.waits paid.reported
after_drain-Remains n p Phase.closed phase q t f paid = freed (f ∙ sym t)

module _ (float_to_chars : ℕ → Text) (clock : TickConversion) where
  others_first :
      {name : Text} {n m : ℕ} {records : List LogRecord} {losses : ℕ} {o o' o2 : Output}
      → Tells float_to_chars clock name n [] 0 o o'
      → Tells float_to_chars clock name m records losses o' o2
      → Tells float_to_chars clock name (n + m) records losses o o2
  others_first {losses = losses} first second =
      let none_more : 0 + losses ≡ losses = omega arith in
      rw none_more at (then-Tells float_to_chars clock first second)

  pub others_last :
      {name : Text} {n m : ℕ} {records : List LogRecord} {losses : ℕ} {o o' o2 : Output}
      → Tells float_to_chars clock name n records losses o o'
      → Tells float_to_chars clock name m [] 0 o' o2
      → Tells float_to_chars clock name (n + m) records losses o o2
  others_last {records = records} {losses = losses} first second =
      let none_more : losses + 0 ≡ losses = omega arith in
      rw (none_more, append-nil records) at (then-Tells float_to_chars clock first second)

  pub record SlotTold (slots : List (Option Producer)) (i : ℕ) (p : Producer) (o : Output)
      (slots' : List (Option Producer)) (o' : Output) : Type 0 where
    pub tells :
        Tells float_to_chars clock p.name (debts slots) (waiting p) (p.dropped - p.reported) o o'
    pub slot : Option Producer
    pub holds : get_elem? slots' i ≡ some slot
    pub remains : Remains p slot

  later-SlotTold :
      (n : ℕ) (ticks : ℕ → ℕ) (behind : Bool) (slot : Option Producer)
      (slots : List (Option Producer)) (i : ℕ) (p : Producer) (o : Output)
      → n < 2 ^ 64
      → SlotIsSound n slot
      → Written.IsValid o
      → ((b : Bool) (o1 : Output)
          → Written.IsValid o1
          → SlotTold slots i p o1
              (drain_slots float_to_chars clock (λ j. ticks (suc j)) b slots o1).1
              (drain_slots float_to_chars clock (λ j. ticks (suc j)) b slots o1).2)
      → SlotTold
          (slot ∷ slots)
          (suc i)
          p
          o
          (drain_slots float_to_chars clock ticks behind (slot ∷ slots) o).1
          (drain_slots float_to_chars clock ticks behind (slot ∷ slots) o).2
  unfolding drain_slots
  later-SlotTold n ticks behind none slots i p o small s v rest =
      let r = rest behind o v in
      let first = others_tell float_to_chars clock p.name (nothing-Pays float_to_chars clock o v) in
      record {
        tells = others_first first r.tells;
        slot = r.slot;
        holds = r.holds;
        remains = r.remains;
      }
  later-SlotTold n ticks behind (some q) slots i p o small s v rest =
      let one = drain_one float_to_chars clock (ticks 0) q o in
      let (tells, paid) = drain_one-Tells float_to_chars clock n (ticks 0) q o small s v in
      let r = rest (behind || one.0.1) one.2 tells.valid in
      let first = others_tell float_to_chars clock p.name (forgets float_to_chars clock tells) in
      record {
        tells = others_first first r.tells;
        slot = r.slot;
        holds = r.holds;
        remains = r.remains;
      }

  pub drain_slots-SlotTold :
      (n : ℕ) (ticks : ℕ → ℕ) (behind : Bool) (slots : List (Option Producer)) (i : ℕ)
      (p : Producer) (o : Output)
      → n < 2 ^ 64
      → get_elem? slots i ≡ some (some p)
      → All (SlotIsSound n) slots
      → Written.IsValid o
      → SlotTold slots i p o
          (drain_slots float_to_chars clock ticks behind slots o).1
          (drain_slots float_to_chars clock ticks behind slots o).2
  unfolding drain_slots
  drain_slots-SlotTold n ticks behind [] i p o small e s v = absurd (cc e)
  drain_slots-SlotTold n ticks behind (none ∷ slots) zero p o small e s v = absurd (cc e)
  drain_slots-SlotTold n ticks behind (some q ∷ slots) zero p o small e (s, rest) v =
      let same : q ≡ p = cc e in
      let one = drain_one float_to_chars clock (ticks 0) q o in
      let (tells, paid) = drain_one-Tells float_to_chars clock n (ticks 0) q o small s v in
      let d =
        drain_slots-Drained float_to_chars clock n (λ j. ticks (suc j)) (behind || one.0.1) slots
          one.2 small rest tells.valid in
      let told : SlotTold (some q ∷ slots) 0 q o
          (drain_slots float_to_chars clock ticks behind (some q ∷ slots) o).1
          (drain_slots float_to_chars clock ticks behind (some q ∷ slots) o).2 =
        record {
          tells = others_last tells (others_tell float_to_chars clock q.name d.pays);
          slot = after_drain one.0.0 one.1;
          holds = refl;
          remains = after_drain-Remains n q one.0.0 q.phase one.1 paid.told_phase refl paid;
        } in
      subst
        (λ x.
          SlotTold (some q ∷ slots) 0 x o
            (drain_slots float_to_chars clock ticks behind (some q ∷ slots) o).1
            (drain_slots float_to_chars clock ticks behind (some q ∷ slots) o).2)
        same told
  drain_slots-SlotTold n ticks behind (slot ∷ slots) (suc i) p o small e (s, rest) v =
      later-SlotTold n ticks behind slot slots i p o small s v
        (λ b o1 v1. drain_slots-SlotTold n (λ j. ticks (suc j)) b slots i p o1 small e rest v1)
