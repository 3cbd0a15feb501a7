-- ===== src/Tests/Ending.antt =====
-- A thread that logs one record and ends, while the logger thread comes by.
use gamegine.Common.{
  ◌≤◌, ◌++◌, take, sub64, replicate, length-replicate, length, ℕ, ◌+◌, [], ◌∷◌, ◌≡◌, refl, arith,
  Text, codes,
}
use gamegine.Clock.{TickConversion, ns_elapsed_since_start}
use gamegine.SpscRing.Valid
use gamegine.SpscRing.Valid.{fresh-IsValid}
use gamegine.LogRecord.{LogRecord}
use gamegine.SpscRing.Value.{fresh, try_push, try_pop}
use gamegine.Logger.Output.{Output}
use gamegine.Logger.Producer.{blank, k_ring_bits, Phase, make, push, close, pop, take_dropped}
use gamegine.Logger.Drain.{limit, drain_one}
use gamegine.Logger.Closing.{
  popping, popped, freed, Pair, after, begin, Reachable, at_begin, then_step, accepts, closes,
  reads_phase, takes, finds_none, reports,
}
use gamegine.Logger.Closed.{freed_complete}
use gamegine.Logger.Ledger.{push-cases}
use gamegine.Logger.Account.{push-kept}
use gamegine.Logger.Written
use gamegine.Logger.Written.{said}
use gamegine.Logger.Drained.{waiting, lines}
use gamegine.Logger.Rounds.{Run, loss_line, drain_one-Run}

abbrev float_text : ℕ → Text
float_text bits = codes "0.5"

abbrev clock : TickConversion
clock = record { start = 5; num = 1; denom = 1 }

abbrev a_record : LogRecord
a_record = record { header = 1_500_000_005; payload = 0x0101 }

abbrev begun : Pair
begun = begin (codes "render")

abbrev logged : Pair
logged = record begun { producer = push begun.producer a_record; accepted = a_record ∷ [] }

logged-Reachable : Reachable logged
unfolding begin make try_push fresh
logged-Reachable =
    then_step begun logged (at_begin (codes "render")) (accepts begun a_record refl refl)

abbrev closed : Pair
closed = record logged { producer = close logged.producer; stage = popping Phase.closed 0 }

closed-Reachable : Reachable closed
unfolding begin make push close try_push fresh
closed-Reachable =
    then_step (record logged { producer = close logged.producer }) closed
      (then_step logged _ logged-Reachable (closes logged refl))
      (reads_phase (record logged { producer = close logged.producer }) refl)

abbrev taken : Pair
taken = record closed {
  producer = (pop closed.producer).1;
  stage = popping Phase.closed 1;
  written = a_record ∷ [];
}

abbrev emptied : Pair
emptied = record taken { producer = (pop taken.producer).1; stage = popped Phase.closed }

abbrev ended : Pair
ended = record emptied {
  producer = (take_dropped emptied.producer).1;
  stage = freed;
  told = 0 + (take_dropped emptied.producer).0;
}

ended-Reachable : Reachable ended
unfolding begin make push close pop try_pop try_push fresh
ended-Reachable =
    then_step emptied ended
      (then_step taken emptied
        (then_step closed taken closed-Reachable
          (takes closed Phase.closed 0 a_record refl (omega arith) refl))
        (finds_none taken Phase.closed 1 refl (omega arith) refl))
      (reports emptied Phase.closed refl)

freed_complete_example : (ended.written ≡ ended.accepted) × (ended.told ≡ ended.refused)
unfolding begin
freed_complete_example = freed_complete ended ended-Reachable (omega arith) refl

-- A batch that is empty, and two drops that no report tells of yet.
abbrev empty_batch : Output
empty_batch = record { batch = replicate 65536 0; size = 0; answers = []; out = [] }

empty_batch-IsValid : Written.IsValid empty_batch
empty_batch-IsValid = record {
  batch_size = length-replicate {A = ℕ} 65536 0;
  used = omega arith;
  works = tt;
}

abbrev behind : Pair
behind = record logged { producer = record logged.producer { dropped = 3; reported = 1 } }

behind-IsValid : Valid.IsValid k_ring_bits behind.producer.ring
unfolding begin make push
behind-IsValid =
    (push-cases (make (codes "render")) a_record
      (fresh-IsValid blank k_ring_bits (omega arith)).0).0

behind_name : length behind.producer.name ≤ 16
unfolding begin make
behind_name = let (name, _) = push-kept (make (codes "render")) a_record in rw name (omega arith)

drain_one-Run_example :
    Run behind (record behind {
      producer = (drain_one float_text clock 9 behind.producer empty_batch).1;
      stage = after (drain_one float_text clock 9 behind.producer empty_batch).0.0;
      written = behind.written ++ take (limit behind.producer.phase) (waiting behind.producer);
      told = behind.told + sub64 behind.producer.dropped behind.producer.reported;
    })
    × (said (drain_one float_text clock 9 behind.producer empty_batch).2
        ≡ said empty_batch
          ++ (lines float_text clock behind.producer.name
                (take (limit behind.producer.phase) (waiting behind.producer))
              ++ loss_line
                  (ns_elapsed_since_start clock 9)
                  behind.producer.name
                  (sub64 behind.producer.dropped behind.producer.reported)))
unfolding begin
drain_one-Run_example =
    drain_one-Run float_text clock behind 9 empty_batch refl behind-IsValid behind_name
      empty_batch-IsValid
