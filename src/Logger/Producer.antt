-- ===== src/Logger/Producer.antt =====
-- `Logger::Producer`, the slots that hold the producers, and registration.
use gamegine.Common.{
  ℕ, suc, Option, none, some, List, [], ◌∷◌, Text, take, if◌then◌else◌, add64, sub64,
}
use gamegine.Error
use gamegine.Error.{Error, Kind, CoreReason, core_traits}
use gamegine.Error.Outcome.{Result, value, unexpected}
use gamegine.LogRecord.{LogRecord}
use gamegine.SpscRing.Value.{Ring, fresh, try_push, try_pop}

abbrev pub k_max_threads : ℕ
k_max_threads = 32

-- `k_RING_CAPACITY` is `2 ^ 12`.
abbrev pub k_ring_bits : ℕ
k_ring_bits = 12

abbrev pub k_max_name_size : ℕ
k_max_name_size = 16

abbrev pub blank : LogRecord
blank = record { header = 0; payload = 0 }

pub data Phase : Type 0 where
  live closed : Phase

pub record Producer : Type 0 where
  pub ring : Ring LogRecord
  pub phase : Phase
  pub dropped : ℕ
  pub reported : ℕ
  pub name : Text

unfoldable pub make : Text → Producer
make name = record {
  ring = fresh blank k_ring_bits;
  phase = Phase.live;
  dropped = 0;
  reported = 0;
  name = take k_max_name_size name;
}

unfoldable pub push : Producer → LogRecord → Producer
push p r =
    let (pushed, ring) = try_push k_ring_bits p.ring r in
    if pushed
    then record p { ring = ring }
    else record p { ring = ring; dropped = add64 p.dropped 1 }

unfoldable pub close : Producer → Producer
close p = record p { phase = Phase.closed }

unfoldable pub pop : Producer → Option LogRecord × Producer
pop p = let (got, ring) = try_pop blank k_ring_bits p.ring in (got, record p { ring = ring })

unfoldable pub take_dropped : Producer → ℕ × Producer
take_dropped p = (sub64 p.dropped p.reported, record p { reported = p.dropped })

-- The first free slot takes the producer; the compare-exchange of a slot that is not free fails.
unfoldable pub claim : List (Option Producer) → Producer → Option ℕ × List (Option Producer)
claim [] p = (none, [])
claim (none ∷ slots) p = (some 0, some p ∷ slots)
claim (some q ∷ slots) p = let (taken, slots') = claim slots p in (next taken, some q ∷ slots')
  where
    next : Option ℕ → Option ℕ
    next none = none
    next (some i) = some (suc i)

-- The handle, as the number of its slot.
unfoldable pub register_current_thread :
    List (Option Producer) → Text → Result ℕ × List (Option Producer)
unfolding claim make
register_current_thread slots name =
    let (taken, slots') = claim slots (make name) in (answer taken, slots')
  where
    answer : Option ℕ → Result ℕ
    answer (some i) = value i
    answer none =
        unexpected (Error.make Kind.exhausted CoreReason.log_too_many_threads k_max_threads)
