-- ===== src/Logger/Racing.antt =====
-- One registered thread and the logger thread by single atomic steps: those of the ring, the count of
-- drops, the phase and the free. A load may be late: that of a counter of the ring, that of the phase,
-- and that of the count of drops, which reads any count from the last it read on. Behind the acquire
-- load that read the phase as closed, all that the thread stored is read.
use gamegine.Common.{ℕ, ◌+◌, ◌≤◌, ◌<◌, ◌≡◌, add64, sub64}
use gamegine.LogRecord.{LogRecord}
use gamegine.SpscRing.Stages
use gamegine.SpscRing.Stages.{outside, away}
use gamegine.SpscRing.Threads
use gamegine.SpscRing.Threads.{
  start, find_room, load_tail_room, load_tail_full, copy_in, publish, find_room_all,
  load_tail_room_all, load_tail_full_all, copy_in_all, publish_all, find_value, load_head_value,
  load_head_empty, copy_out, hand_back,
}
use gamegine.Logger.Producer.{Phase, blank, k_ring_bits}
use gamegine.Logger.Drain.{limit}
use gamegine.Logger.Closing.{Stage, elsewhere, popping, popped, after}

-- Where the thread stands besides its ring: a push was refused and is not counted yet, or the handle
-- is destroyed.
pub data Thread : Type 0 where
  running missed ended : Thread

-- Whose step of the ring it is, and how a call ends with it: a push that is refused, a pop that
-- returns a record, and one that finds none.
pub data Kind : Type 0 where
  pushes misses in_batch pops returns finds_none : Kind

abbrev pub kind_of : {s s' : Stages.System LogRecord} → Threads.Step blank k_ring_bits s s' → Kind
kind_of (find_room r c ins outs v e) = pushes
kind_of (load_tail_room r c ins outs v t may e e') = pushes
kind_of (load_tail_full r c ins outs t may e e') = misses
kind_of (copy_in r c ins outs v) = pushes
kind_of (publish r c ins outs v) = pushes
kind_of (find_room_all r c ins outs values small fits) = in_batch
kind_of (load_tail_room_all r c ins outs values t may small e fits) = in_batch
kind_of (load_tail_full_all r c ins outs values t may small e e') = in_batch
kind_of (copy_in_all r c ins outs done v todo) = in_batch
kind_of (publish_all r c ins outs done) = in_batch
kind_of (find_value r p ins outs e) = pops
kind_of (load_head_value r p ins outs h may e e') = pops
kind_of (load_head_empty r p ins outs h may e e') = finds_none
kind_of (copy_out r p ins outs) = pops
kind_of (hand_back r p ins outs v) = returns

-- The ring has every record pushed into it and popped, `refused` is the pushes that it refused, and
-- `told` the sum of the counts handed to `write_loss`.
pub record Race : Type 0 where
  pub ring : Stages.System LogRecord
  pub phase : Phase
  pub dropped : ℕ
  pub reported : ℕ
  pub thread : Thread
  pub stage : Stage
  pub refused : ℕ
  pub told : ℕ

unfoldable pub begin : Race
begin = record {
  ring = start blank k_ring_bits;
  phase = Phase.live;
  dropped = 0;
  reported = 0;
  thread = running;
  stage = elsewhere;
  refused = 0;
  told = 0;
}

pub data Step : Race → Race → Type 0 where
  thread_steps :
      (s : Race) (ring : Stages.System LogRecord)
      (step : Threads.Step blank k_ring_bits s.ring ring)
      → s.thread ≡ running
      → kind_of step ≡ pushes
      → Step s (record s { ring = ring })
  is_refused :
      (s : Race) (ring : Stages.System LogRecord)
      (step : Threads.Step blank k_ring_bits s.ring ring)
      → s.thread ≡ running
      → kind_of step ≡ misses
      → Step s (record s { ring = ring; thread = missed; refused = s.refused + 1 })
  counts_drop :
      (s : Race)
      → s.thread ≡ missed
      → Step s (record s { dropped = add64 s.dropped 1; thread = running })
  closes :
      (s : Race)
      → s.thread ≡ running
      → s.ring.producer ≡ outside
      → Step s (record s { phase = Phase.closed; thread = ended })
  reads_phase :
      (s : Race) (seen : Phase)
      → s.stage ≡ elsewhere
      → (seen ≡ Phase.closed → s.phase ≡ Phase.closed)
      → Step s (record s { stage = popping seen 0 })
  logger_steps :
      (s : Race) (ring : Stages.System LogRecord)
      (step : Threads.Step blank k_ring_bits s.ring ring) (phase : Phase) (count : ℕ)
      → s.stage ≡ popping phase count
      → count < limit phase
      → kind_of step ≡ pops
      → Step s (record s { ring = ring })
  pops_record :
      (s : Race) (ring : Stages.System LogRecord)
      (step : Threads.Step blank k_ring_bits s.ring ring) (phase : Phase) (count : ℕ)
      → s.stage ≡ popping phase count
      → count < limit phase
      → kind_of step ≡ returns
      → Step s (record s { ring = ring; stage = popping phase (count + 1) })
  pops_none :
      (s : Race) (ring : Stages.System LogRecord)
      (step : Threads.Step blank k_ring_bits s.ring ring) (phase : Phase) (count : ℕ)
      → s.stage ≡ popping phase count
      → count < limit phase
      → kind_of step ≡ finds_none
      → (phase ≡ Phase.closed → ring.ring.cached_head ≡ ring.ring.head)
      → Step s (record s { ring = ring; stage = popped phase })
  meets_limit :
      (s : Race) (phase : Phase) (count : ℕ)
      → s.stage ≡ popping phase count
      → s.ring.consumer ≡ away
      → count ≡ limit phase
      → Step s (record s { stage = popped phase })
  reports :
      (s : Race) (phase : Phase) (seen : ℕ)
      → s.stage ≡ popped phase
      → s.reported ≤ seen
      → seen ≤ s.dropped
      → (phase ≡ Phase.closed → seen ≡ s.dropped)
      → Step s
          (record s { reported = seen; stage = after phase; told = s.told + sub64 seen s.reported })

pub data Reachable : Race → Type 0 where
  at_begin : Reachable begin
  then_step : (s s' : Race) → Reachable s → Step s s' → Reachable s'
