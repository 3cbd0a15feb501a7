-- ===== src/Logger/Position.antt =====
-- Where the records of a watched thread are: written, or in its ring.
use gamegine.Common.{
  ℕ, ◌+◌, ◌-◌, ◌<◌, ◌^◌, true, false, inl, inr, Bool-cases, Option, none, some, List, [], ◌∷◌, ◌++◌,
  ◌≡◌, ◌⊎◌, sym, ap, ◌∙◌, arith, get_elem?, take, ◌==◌, append_assoc, All,
}
use gamegine.LogRecord.{LogRecord}
use gamegine.Logger.Producer
use gamegine.Logger.Producer.{Phase, Producer, close}
use gamegine.Logger.Handle.{at_slot}
use gamegine.Logger.Drained.{waiting}
use gamegine.Logger.Ledger.{push-cases}
use gamegine.Logger.Owners.{live_at, liveness, push-phase}
use gamegine.Logger.Account.{SlotIsSound, IsSound, push-kept}
use gamegine.Logger.Slots.{at_slot_self, at_slot_other, slot-IsSound, slot_live}
use gamegine.Logger.Watch.{Watch, is_watched, ring_takes, slot_takes, note}

-- With so much of it written, the rest of what the thread logged is with the producer in a slot.
pub record Held (w : Watch) (slots : List (Option Producer)) (told : List LogRecord) (lost i : ℕ)
    (p : Producer) : Type 0 where
  pub holds : get_elem? slots i ≡ some (some p)
  pub name : p.name ≡ take 16 w.name
  pub records : told ++ waiting p ≡ w.accepted
  pub losses : lost + (p.dropped - p.reported) ≡ w.lost

-- Its handle is still there and its producer live, or neither.
abbrev pub Standing : Watch → ℕ → Producer → Type 0
Standing w i p =
    ((w.open_slot ≡ some i) × (p.phase ≡ Phase.live))
    ⊎ ((w.open_slot ≡ none) × (p.phase ≡ Phase.closed))

pub data Position (w : Watch) (slots : List (Option Producer)) (told : List LogRecord) (lost : ℕ)
    : Type 0 where
  opened :
      (i : ℕ) (p : Producer)
      → Held w slots told lost i p
      → w.open_slot ≡ some i
      → p.phase ≡ Phase.live
      → Position w slots told lost
  closing :
      (i : ℕ) (p : Producer)
      → Held w slots told lost i p
      → w.open_slot ≡ none
      → p.phase ≡ Phase.closed
      → Position w slots told lost
  finished : w.open_slot ≡ none → told ≡ w.accepted → lost ≡ w.lost → Position w slots told lost

module _ (w : Watch) (slots : List (Option Producer)) (told : List LogRecord) (lost : ℕ) where
  pub kept-Held :
      (slots' : List (Option Producer)) (i : ℕ) (p : Producer)
      → Held w slots told lost i p
      → get_elem? slots' i ≡ some (some p)
      → Held w slots' told lost i p
  kept-Held slots' i p h e = record {
    holds = e;
    name = h.name;
    records = h.records;
    losses = h.losses;
  }

  -- A change that leaves every slot that holds a producer.
  pub kept-Position :
      (slots' : List (Option Producer))
      → ((i : ℕ) (p : Producer)
          → get_elem? slots i ≡ some (some p)
          → get_elem? slots' i ≡ some (some p))
      → Position w slots told lost
      → Position w slots' told lost
  kept-Position slots' kept (opened i p h o live) =
      opened i p (kept-Held slots' i p h (kept i p h.holds)) o live
  kept-Position slots' kept (closing i p h o closed) =
      closing i p (kept-Held slots' i p h (kept i p h.holds)) o closed
  kept-Position slots' kept (finished o t l) = finished o t l

  -- A push into the slot of the thread.
  own_push-Position :
      (n i : ℕ) (p : Producer) (r : LogRecord)
      → n + 1 < 2 ^ 64
      → Held w slots told lost i p
      → IsSound n p
      → w.open_slot ≡ some i
      → p.phase ≡ Phase.live
      → Position
          (note true (ring_takes r (some (some p))) r w)
          (at_slot (λ q. Producer.push q r) slots i)
          told
          lost
  own_push-Position n i p r small h s o live =
      let holds = at_slot_self (λ q. Producer.push q r) slots i p h.holds in
      let (name, reported) = push-kept p r in
      let h1 = s.reported in
      let h2 = s.dropped in
      let h3 = h.losses in
      elim (push-cases p r s.ring).1 [
        | inl (taken, waits, dropped) ↦ rw taken (
            opened i (Producer.push p r)
              (record {
                holds = holds;
                name = name ∙ h.name;
                records =
                    ap (λ rs. told ++ rs) waits
                    ∙ sym (append_assoc told (waiting p) (r ∷ []))
                    ∙ ap (λ rs. rs ++ (r ∷ [])) h.records;
                losses = omega arith;
              })
              o (push-phase p r ∙ live))
        | inr (missed, full, waits, dropped) ↦ rw missed (
            opened i (Producer.push p r)
              (record {
                holds = holds;
                name = name ∙ h.name;
                records = ap (λ rs. told ++ rs) waits ∙ h.records;
                losses = omega arith;
              })
              o (push-phase p r ∙ live))
      ]

  other_push-Position :
      (j i : ℕ) (p : Producer) (r : LogRecord)
      → (j == i) ≡ false
      → Held w slots told lost i p
      → Held w (at_slot (λ q. Producer.push q r) slots j) told lost i p
  other_push-Position j i p r other h =
      kept-Held (at_slot (λ q. Producer.push q r) slots j) i p h
        (at_slot_other (λ q. Producer.push q r) slots j i other ∙ h.holds)

  -- A push through any handle, which points to a live producer.
  pub push-Position :
      (n j : ℕ) (r : LogRecord)
      → n + 1 < 2 ^ 64
      → All (SlotIsSound n) slots
      → live_at slots j ≡ 1
      → Position w slots told lost
      → Position
          (note (is_watched (some j) w.open_slot) (slot_takes r slots w.open_slot) r w)
          (at_slot (λ q. Producer.push q r) slots j)
          told
          lost
  push-Position n j r small s live (opened i p h o phase) = elim (Bool-cases (j == i)) [
    | inl mine ↦
        let same : j ≡ i = ground arith in
        let watched = ap (is_watched (some j)) o ∙ mine in
        let takes = ap (slot_takes r slots) o ∙ ap (ring_takes r) h.holds in
        rw (watched, takes, same)
          (own_push-Position n i p r small h (slot-IsSound n slots i p h.holds s) o phase)
    | inr other ↦
        let unwatched = ap (is_watched (some j)) o ∙ other in
        rw unwatched (opened i p (other_push-Position j i p r other h) o phase)
  ]
  push-Position n j r small s live (closing i p h o phase) =
      let unwatched = ap (is_watched (some j)) o in
      let dead : live_at slots i ≡ 0 = slot_live slots i p h.holds ∙ ap liveness phase in
      elim (Bool-cases (j == i)) [
        | inl same ↦ let e : j ≡ i = ground arith in absurd (omega (arith, ap (live_at slots) e))
        | inr other ↦ rw unwatched (closing i p (other_push-Position j i p r other h) o phase)
      ]
  push-Position n j r small s live (finished o t l) =
      let unwatched = ap (is_watched (some j)) o in rw unwatched (finished o t l)
