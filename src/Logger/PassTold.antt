-- ===== src/Logger/PassTold.antt =====
-- What a whole pass tells of the producer in one slot, and beside one of which all is told.
use gamegine.Common.{
  ℕ, ◌+◌, ◌-◌, ◌<◌, ◌^◌, false, Option, some, List, [], ◌≡◌, ◌∙◌, Text, get_elem?,
}
use gamegine.Clock.{TickConversion}
use gamegine.LogRecord.{LogRecord}
use gamegine.Logger.Output.{flush}
use gamegine.Logger.Written.{flush-IsValid}
use gamegine.Logger.Producer.{Producer, k_max_threads}
use gamegine.Logger.Drain.{drain_one}
use gamegine.Logger.Drained.{waiting}
use gamegine.Logger.State.{Logger, drain_slots, drain, pass}
use gamegine.Logger.Account.{IsSound, debt, debts}
use gamegine.Logger.Entries.{Tells, others_tell, forgets}
use gamegine.Logger.Paid.{drain_one-Tells}
use gamegine.Logger.Passes.{drain_slots-Drained}
use gamegine.Logger.Accounted.{Accounted}
use gamegine.Logger.Told.{Remains, others_last, drain_slots-SlotTold}

module _ (float_to_chars : ℕ → Text) (clock : TickConversion) where
  -- What a pass writes after the slots: the shared producer's part, and the flush.
  rest_of_pass :
      (n : ℕ) (ticks : ℕ → ℕ) (l : Logger) (name : Text) {owed : ℕ} {records : List LogRecord}
      {losses : ℕ}
      → n < 2 ^ 64
      → IsSound n l.shared
      → Tells float_to_chars clock name owed records losses l.output
          (drain_slots float_to_chars clock ticks false l.slots l.output).2
      → Tells float_to_chars clock name
          (owed + debt l.shared)
          records
          losses
          l.output
          (pass float_to_chars clock ticks l).1.output
  unfolding pass drain flush
  rest_of_pass n ticks l name small s first =
      let slots = drain_slots float_to_chars clock ticks false l.slots l.output in
      let tick = ticks k_max_threads in
      let (tells, paid) =
        drain_one-Tells float_to_chars clock n tick l.shared slots.2 small s first.valid in
      let both =
        others_last float_to_chars clock first
          (others_tell float_to_chars clock name (forgets float_to_chars clock tells)) in
      let o = (drain_one float_to_chars clock tick l.shared slots.2).2 in
      let (valid, same) = flush-IsValid o tells.valid in
      record {
        valid = valid;
        entries = both.entries;
        wrote = same ∙ both.wrote;
        weighs = both.weighs;
        told = both.told;
        lost = both.lost;
      }

  -- A pass beside a producer of which all is told.
  pub pass_beside :
      (n : ℕ) (ticks : ℕ → ℕ) (l : Logger) (name : Text)
      → n < 2 ^ 64
      → Accounted float_to_chars clock l n
      → Tells float_to_chars clock name
          (debts l.slots + debt l.shared)
          []
          0
          l.output
          (pass float_to_chars clock ticks l).1.output
  pass_beside n ticks l name small a =
      let d =
        drain_slots-Drained float_to_chars clock n ticks false l.slots l.output small a.sound
          a.valid in
      rest_of_pass n ticks l name small a.shared_sound
        (others_tell float_to_chars clock name d.pays)

  pub record PassTold (l : Logger) (i : ℕ) (p : Producer) (l' : Logger) : Type 0 where
    pub tells :
        Tells float_to_chars clock p.name
          (debts l.slots + debt l.shared)
          (waiting p)
          (p.dropped - p.reported)
          l.output
          l'.output
    pub slot : Option Producer
    pub holds : get_elem? l'.slots i ≡ some slot
    pub remains : Remains p slot

  pub pass-PassTold :
      (n : ℕ) (ticks : ℕ → ℕ) (l : Logger) (i : ℕ) (p : Producer)
      → n < 2 ^ 64
      → Accounted float_to_chars clock l n
      → get_elem? l.slots i ≡ some (some p)
      → PassTold l i p (pass float_to_chars clock ticks l).1
  unfolding pass drain
  pass-PassTold n ticks l i p small a e =
      let t =
        drain_slots-SlotTold float_to_chars clock n ticks false l.slots i p l.output small e a.sound
          a.valid in
      record {
        tells = rest_of_pass n ticks l p.name small a.shared_sound t.tells;
        slot = t.slot;
        holds = t.holds;
        remains = t.remains;
      }
