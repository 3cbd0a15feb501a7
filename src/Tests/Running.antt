-- ===== src/Tests/Running.antt =====
-- A logger while it runs: a thread registers, logs one error and ends.
use gamegine.Common.{
  ℕ, ◌+◌, Option, none, some, List, [], ◌∷◌, ◌≡◌, refl, arith, Text, codes, replicate, get_elem?,
}
use gamegine.Clock.{TickConversion}
use gamegine.LogRecord.{LogRecord}
use gamegine.Logger.Producer
use gamegine.Logger.Producer.{Producer, register_current_thread}
use gamegine.Logger.State.{Logger, start, pass, destroy}
use gamegine.Logger.Handle
use gamegine.Logger.Handle.{Handle, at_slot}
use gamegine.Logger.System.{System, Reachable, at_start, then_step, registers, logs, closes}
use gamegine.Logger.Owners.{owners, live_at}
use gamegine.Error.Outcome.{value}
use gamegine.Logger.Drained.{waiting}
use gamegine.Logger.Burst.{push_each, burst_kept}
use gamegine.Logger.Outcomes.{destroy_asserts, register_works}
use gamegine.Logger.Complete.{Reachable-owned, push_safe}

abbrev pub float_text : ℕ → Text
float_text bits = codes "0.5"

abbrev pub clock : TickConversion
clock = record { start = 5; num = 1; denom = 1 }

abbrev pub ticks : ℕ → ℕ
ticks i = 100 + i

abbrev pub a_record : LogRecord
a_record = record { header = 1_500_000_005; payload = 0x0101 }

abbrev pub registered_slots : List (Option Producer)
registered_slots = some (Producer.make (codes "render")) ∷ replicate 31 none

abbrev pub logged_slots : List (Option Producer)
logged_slots = at_slot (λ q. Producer.push q a_record) registered_slots 0

abbrev pub begun : Logger
begun = start []

abbrev pub registered : System
registered = record {
  logger = record begun { slots = registered_slots };
  handles = Handle.make 7 0 ∷ [];
  logged = 0;
}

registered-Reachable : Reachable float_text clock registered
unfolding register_current_thread Producer.claim Producer.make start
registered-Reachable =
    then_step (record { logger = begun; handles = []; logged = 0 }) registered (at_start [] tt)
      (registers begun [] 0 7 0 (codes "render") registered_slots refl)

abbrev pub logged : System
logged = record {
  logger = record begun { slots = logged_slots };
  handles = Handle.make 7 0 ∷ [];
  logged = 1;
}

logged-Reachable : Reachable float_text clock logged
unfolding Handle.push Handle.make
logged-Reachable = then_step registered logged registered-Reachable (
    logs (record begun { slots = registered_slots }) [] (Handle.make 7 0) [] 0 7 a_record
      logged_slots refl)

abbrev pub ended : System
ended = record {
  logger = record begun { slots = Handle.destroy (Handle.make 7 0) logged_slots };
  handles = [];
  logged = 1;
}

ended-Reachable : Reachable float_text clock ended
ended-Reachable =
    then_step logged ended logged-Reachable
      (closes (record begun { slots = logged_slots }) [] (Handle.make 7 0) [] 1)

Reachable-owned_example : owners logged.handles 0 ≡ live_at logged.logger.slots 0
Reachable-owned_example = Reachable-owned float_text clock logged 0 logged-Reachable (omega arith)

push_safe_example :
    Handle.push 7 (Handle.make 7 0) a_record logged_slots
    ≡ some (at_slot (λ q. Producer.push q a_record) logged_slots 0)
unfolding Handle.make
push_safe_example =
    push_safe float_text clock logged [] (Handle.make 7 0) [] 0 a_record logged-Reachable
      (omega arith) refl refl

destroy_asserts_example : destroy float_text clock ticks logged.logger ≡ none
unfolding Handle.make
destroy_asserts_example =
    destroy_asserts float_text clock logged ticks [] (Handle.make 7 0) [] 0 logged-Reachable
      (omega arith) refl refl

register_works_example :
    (i : ℕ) × (slots : List (Option Producer)) × (register_current_thread
        (pass float_text clock ticks ended.logger).1.slots
        (codes "audio")
      ≡ (value i, slots))
    × (get_elem? slots i ≡ some (some (Producer.make (codes "audio"))))
register_works_example =
    register_works float_text clock ended ticks (codes "audio") ended-Reachable (omega arith)
      (omega arith)

burst_kept_example :
    (p : Producer) × (get_elem? (pass float_text clock ticks logged.logger).1.slots 0
      ≡ some (some p))
    × (waiting (push_each p (a_record ∷ a_record ∷ [])) ≡ a_record ∷ a_record ∷ [])
    × ((push_each p (a_record ∷ a_record ∷ [])).dropped ≡ p.dropped)
unfolding Handle.make
burst_kept_example =
    burst_kept float_text clock logged ticks [] (Handle.make 7 0) [] 0 (a_record ∷ a_record ∷ [])
      logged-Reachable (omega arith) refl refl (omega arith)
