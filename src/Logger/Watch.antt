-- ===== src/Logger/Watch.antt =====
-- One registered thread, watched over the calls of a program: what it logs through its handle.
use gamegine.Common.{
  ℕ, ◌+◌, Bool, true, false, Option, none, some, List, [], ◌∷◌, ◌++◌, ◌≡◌, Text, ◌==◌, get_elem?,
}
use gamegine.Clock.{TickConversion}
use gamegine.Error.Outcome.{value}
use gamegine.LogRecord.{LogRecord}
use gamegine.SpscRing.Value.{try_push}
use gamegine.Logger.Producer.{Producer, k_ring_bits, register_current_thread}
use gamegine.Logger.Handle
use gamegine.Logger.Handle.{Handle}
use gamegine.Logger.State.{Logger}
use gamegine.Logger.System.{
  System, Step, registers, refused, moves, logs, logs_locked, closes, passes, Reachable, then_step,
}

-- Its slot while its handle is not destroyed, its name, the records that its ring took, in order,
-- and how many its ring refused.
pub record Watch : Type 0 where
  pub open_slot : Option ℕ
  pub name : Text
  pub accepted : List LogRecord
  pub lost : ℕ

abbrev pub watch : ℕ → Text → Watch
watch i name = record { open_slot = some i; name = name; accepted = []; lost = 0 }

abbrev pub is_watched : Option ℕ → Option ℕ → Bool
is_watched (some i) (some j) = i == j
is_watched _ _ = false

-- What the ring of the slot answers to a record.
abbrev pub ring_takes : LogRecord → Option (Option Producer) → Bool
ring_takes r (some (some p)) = (try_push k_ring_bits p.ring r).0
ring_takes r _ = false

abbrev pub slot_takes : LogRecord → List (Option Producer) → Option ℕ → Bool
slot_takes r slots (some i) = ring_takes r (get_elem? slots i)
slot_takes r slots none = false

abbrev pub note : Bool → Bool → LogRecord → Watch → Watch
note true true r w = record w { accepted = w.accepted ++ (r ∷ []) }
note true false r w = record w { lost = w.lost + 1 }
note false _ r w = w

abbrev pub note_close : Bool → Watch → Watch
note_close true w = record w { open_slot = none }
note_close false w = w

module _ (float_to_chars : ℕ → Text) (clock : TickConversion) where
  abbrev pub follow : {s s' : System} → Step float_to_chars clock s s' → Watch → Watch
  follow (registers l hs n thread i name slots e) w = w
  follow (refused l hs n name err slots e) w = w
  follow (moves l before h after n) w = w
  follow (logs l before h after n thread r slots e) w =
      note (is_watched h.producer w.open_slot) (slot_takes r l.slots w.open_slot) r w
  follow (logs_locked l hs n r) w = w
  follow (closes l before h after n) w = note_close (is_watched h.producer w.open_slot) w
  follow (passes l hs n ticks) w = w

  -- A thread that registered, and what it has logged since.
  pub data Watched : System → Watch → Type 0 where
    begins :
        (l : Logger) (hs : List Handle) (n thread i : ℕ) (name : Text)
        (slots : List (Option Producer))
        → Reachable float_to_chars clock (record { logger = l; handles = hs; logged = n })
        → register_current_thread l.slots name ≡ (value i, slots)
        → Watched
            (record {
              logger = record l { slots = slots };
              handles = Handle.make thread i ∷ hs;
              logged = n;
            })
            (watch i name)
    goes_on :
        (s s' : System) (w : Watch)
        → Watched s w
        → (step : Step float_to_chars clock s s') → Watched s' (follow step w)

  pub Watched-Reachable : (s : System) (w : Watch) → Watched s w → Reachable float_to_chars clock s
  Watched-Reachable _ _ (begins l hs n thread i name slots r e) =
      then_step _ _ r (registers l hs n thread i name slots e)
  Watched-Reachable _ _ (goes_on s s' w h step) = then_step s s' (Watched-Reachable s w h) step
