-- ===== src/Logger/Burst.antt =====
-- How much a thread may log between two passes without a loss.
use gamegine.Common.{
  ℕ, ◌+◌, ◌≤◌, ◌<◌, ◌^◌, inl, inr, some, List, [], ◌∷◌, ◌++◌, ◌≡◌, refl, sym, ap, ◌∙◌, arith, Text,
  length, length-append, length_zero, append_assoc, append-nil, get_elem?,
}
use gamegine.Clock.{TickConversion}
use gamegine.LogRecord.{LogRecord}
use gamegine.SpscRing.Valid
use gamegine.Logger.Producer
use gamegine.Logger.Producer.{Producer, k_ring_bits}
use gamegine.Logger.Handle.{Handle}
use gamegine.Logger.Drained.{waiting}
use gamegine.Logger.Ledger.{push-cases}
use gamegine.Logger.State.{pass}
use gamegine.Logger.System.{System, Reachable}
use gamegine.Logger.Owners.{owners, owner_live, live_at-some}
use gamegine.Logger.Slots.{slot-IsSound, slot_owes}
use gamegine.Logger.Accounted.{pass-Passed}
use gamegine.Logger.Complete.{Reachable-Invariant}

-- A thread that logs these records, in this order.
abbrev pub push_each : Producer → List LogRecord → Producer
push_each p [] = p
push_each p (r ∷ records) = push_each (Producer.push p r) records

-- Records that fit behind those that wait are all taken.
push_each-waiting :
    (p : Producer) (records : List LogRecord)
    → Valid.IsValid k_ring_bits p.ring
    → length (waiting p) + length records ≤ 4096
    → (waiting (push_each p records) ≡ waiting p ++ records)
      × ((push_each p records).dropped ≡ p.dropped)
push_each-waiting p [] v fits = (sym (append-nil (waiting p)), refl)
push_each-waiting p (r ∷ records) v fits =
    let (valid, cases) = push-cases p r v in
    elim cases [
      | inl (_, waits, dropped) ↦
          let longer = length-append (waiting p) (r ∷ []) in
          let (all, kept) =
            push_each-waiting (Producer.push p r) records valid
              (omega (arith, ap length waits, longer)) in
          (
            all ∙ ap (λ l. l ++ records) waits ∙ append_assoc (waiting p) (r ∷ []) records,
            kept ∙ dropped,
          )
      | inr (_, full, _, _) ↦ absurd (omega arith)
    ]

module _ (float_to_chars : ℕ → Text) (clock : TickConversion) where
  -- After any sequence of whole calls, of fewer than 2 ^ 64 records logged, over a file whose
  -- `write(2)` only takes characters or is interrupted, and while a handle points to a slot: behind
  -- one pass of the logger thread that slot has a producer whose ring takes up to 4096 records in a
  -- row, in order and beside no other, and which counts no drop.
  pub burst_kept :
      (s : System) (ticks : ℕ → ℕ) (before : List Handle) (h : Handle) (after : List Handle) (i : ℕ)
      (records : List LogRecord)
      → Reachable float_to_chars clock s
      → s.logged < 2 ^ 64
      → s.handles ≡ before ++ (h ∷ after)
      → h.producer ≡ some i
      → length records ≤ 4096
      → (p : Producer) × (get_elem? (pass float_to_chars clock ticks s.logger).1.slots i
          ≡ some (some p))
        × (waiting (push_each p records) ≡ records)
        × ((push_each p records).dropped ≡ p.dropped)
  burst_kept s ticks before h after i records reached small e points few =
      let v = Reachable-Invariant float_to_chars clock s reached small in
      let passed = pass-Passed float_to_chars clock s.logger s.logged ticks small v.accounted in
      let slots = (pass float_to_chars clock ticks s.logger).1.slots in
      let owned = λ (j : ℕ). ap (λ hs. owners hs j) (sym e) ∙ v.owned j ∙ sym (passed.live j) in
      let (p, holds, phase) =
        live_at-some slots i (owner_live before h after slots i owned points) in
      let owes = slot_owes slots i p holds in
      let empty = length_zero (waiting p) (omega (arith, passed.settled)) in
      let sound = slot-IsSound s.logged slots i p holds passed.accounted.sound in
      let (all, kept) = push_each-waiting p records sound.ring (omega (arith, ap length empty)) in
      (p, holds, all ∙ ap (λ l. l ++ records) empty, kept)
