-- ===== src/Logger/Sized.antt =====
-- A logger has as many slots as it began with.
use gamegine.Common.{
  ℕ, zero, suc, Bool, false, ◌||◌, Option, none, some, List, [], ◌∷◌, ◌≡◌, refl, ap, ◌∙◌, Text,
  length, length-set, length-replicate,
}
use gamegine.Clock.{TickConversion}
use gamegine.Logger.Output.{Output}
use gamegine.Logger.Producer
use gamegine.Logger.Producer.{Producer, close, k_max_threads}
use gamegine.Logger.Drain.{drain_one}
use gamegine.Logger.Handle
use gamegine.Logger.Handle.{Handle, at_slot}
use gamegine.Logger.Handles.{push-Found}
use gamegine.Logger.Registered.{registers-Claimed, refused-kept}
use gamegine.Logger.State.{drain_slots, drain, pass, start, push_locked}
use gamegine.Logger.System.{
  System, Step, registers, refused, moves, logs, logs_locked, closes, passes, Reachable, at_start,
  then_step,
}

length-at_slot :
    (f : Producer → Producer) (slots : List (Option Producer)) (i : ℕ)
    → length (at_slot f slots i) ≡ length slots
length-at_slot f [] i = refl
length-at_slot f (none ∷ slots) zero = refl
length-at_slot f (some p ∷ slots) zero = refl
length-at_slot f (slot ∷ slots) (suc i) = ap suc (length-at_slot f slots i)

length-destroy :
    (producer : Option ℕ) (owner : ℕ) (slots : List (Option Producer))
    → length (Handle.destroy (record { producer = producer; owner = owner }) slots) ≡ length slots
unfolding Handle.destroy
length-destroy none owner slots = refl
length-destroy (some i) owner slots = length-at_slot close slots i

module _ (float_to_chars : ℕ → Text) (clock : TickConversion) where
  length-drain_slots :
      (ticks : ℕ → ℕ) (behind : Bool) (slots : List (Option Producer)) (o : Output)
      → length (drain_slots float_to_chars clock ticks behind slots o).1 ≡ length slots
  unfolding drain_slots
  length-drain_slots ticks behind [] o = refl
  length-drain_slots ticks behind (none ∷ slots) o =
      ap suc (length-drain_slots (λ i. ticks (suc i)) behind slots o)
  length-drain_slots ticks behind (some p ∷ slots) o =
      let one = drain_one float_to_chars clock (ticks 0) p o in
      ap suc (length-drain_slots (λ i. ticks (suc i)) (behind || one.0.1) slots one.2)

  Step-length :
      (s s' : System)
      → Step float_to_chars clock s s'
      → length s'.logger.slots ≡ length s.logger.slots
  unfolding pass drain push_locked
  Step-length _ _ (registers l hs n thread i name slots e) =
      ap length (registers-Claimed l.slots name i slots e).1
      ∙ length-set l.slots i (some (Producer.make name))
  Step-length _ _ (refused l hs n name err slots e) =
      ap length (refused-kept l.slots name err slots e)
  Step-length _ _ (moves l before h after n) = refl
  Step-length _ _ (logs l before h after n thread r slots e) =
      let f = push-Found thread h r l.slots slots e in
      ap length f.pushed ∙ length-at_slot (λ q. Producer.push q r) l.slots f.slot
  Step-length _ _ (logs_locked l hs n r) = refl
  Step-length _ _ (closes l before h after n) = length-destroy h.producer h.owner l.slots
  Step-length _ _ (passes l hs n ticks) = length-drain_slots ticks false l.slots l.output

  pub Reachable-length :
      (s : System) → Reachable float_to_chars clock s → length s.logger.slots ≡ k_max_threads
  unfolding start
  Reachable-length _ (at_start answers works) =
      length-replicate {A = Option Producer} k_max_threads none
  Reachable-length s' (then_step s _ r step) = Step-length s s' step ∙ Reachable-length s r
