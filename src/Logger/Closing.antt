-- ===== src/Logger/Closing.antt =====
-- One registered thread and the logger thread, step by step: a push, the close, and each load and pop of
-- `drain_one` may come in any order.
use gamegine.Common.{ℕ, ◌+◌, ◌<◌, true, false, none, some, List, [], ◌∷◌, ◌++◌, ◌≡◌, Text}
use gamegine.LogRecord.{LogRecord}
use gamegine.SpscRing.Value.{try_push}
use gamegine.Logger.Producer.{Phase, Producer, make, push, close, pop, take_dropped, k_ring_bits}
use gamegine.Logger.Drain.{limit}

-- Where the logger thread stands with this producer: elsewhere, in the loop with the phase it read and
-- its count of records, behind the loop, or past the free.
pub data Stage : Type 0 where
  elsewhere : Stage
  popping : Phase → ℕ → Stage
  popped : Phase → Stage
  freed : Stage

-- `accepted` and `refused` are the pushes so far, `written` the records handed to `write_record`, and
-- `told` the sum of the counts handed to `write_loss`.
pub record Pair : Type 0 where
  pub producer : Producer
  pub stage : Stage
  pub accepted : List LogRecord
  pub refused : ℕ
  pub written : List LogRecord
  pub told : ℕ

-- What `drain` does after `drain_one`, by the phase that it read.
abbrev pub after : Phase → Stage
after Phase.live = elsewhere
after Phase.closed = freed

unfoldable pub begin : Text → Pair
begin name = record {
  producer = make name;
  stage = elsewhere;
  accepted = [];
  refused = 0;
  written = [];
  told = 0;
}

pub data Step : Pair → Pair → Type 0 where
  accepts :
      (s : Pair) (r : LogRecord)
      → s.producer.phase ≡ Phase.live
      → (try_push k_ring_bits s.producer.ring r).0 ≡ true
      → Step s (record s { producer = push s.producer r; accepted = s.accepted ++ (r ∷ []) })
  refuses :
      (s : Pair) (r : LogRecord)
      → s.producer.phase ≡ Phase.live
      → (try_push k_ring_bits s.producer.ring r).0 ≡ false
      → Step s (record s { producer = push s.producer r; refused = s.refused + 1 })
  closes :
      (s : Pair) → s.producer.phase ≡ Phase.live → Step s (record s { producer = close s.producer })
  reads_phase :
      (s : Pair) → s.stage ≡ elsewhere → Step s (record s { stage = popping s.producer.phase 0 })
  takes :
      (s : Pair) (phase : Phase) (count : ℕ) (r : LogRecord)
      → s.stage ≡ popping phase count
      → count < limit phase
      → (pop s.producer).0 ≡ some r
      → Step s (record s {
        producer = (pop s.producer).1;
        stage = popping phase (count + 1);
        written = s.written ++ (r ∷ []);
      })
  finds_none :
      (s : Pair) (phase : Phase) (count : ℕ)
      → s.stage ≡ popping phase count
      → count < limit phase
      → (pop s.producer).0 ≡ none
      → Step s (record s { producer = (pop s.producer).1; stage = popped phase })
  meets_limit :
      (s : Pair) (phase : Phase) (count : ℕ)
      → s.stage ≡ popping phase count
      → count ≡ limit phase
      → Step s (record s { stage = popped phase })
  reports :
      (s : Pair) (phase : Phase)
      → s.stage ≡ popped phase
      → Step s (record s {
        producer = (take_dropped s.producer).1;
        stage = after phase;
        told = s.told + (take_dropped s.producer).0;
      })

pub data Reachable : Pair → Type 0 where
  at_begin : (name : Text) → Reachable (begin name)
  then_step : (s s' : Pair) → Reachable s → Step s s' → Reachable s'
