-- ===== src/Logger/Drain.antt =====
-- What the logger thread does with one producer: `drain_one`.
use gamegine.Common.{ℕ, zero, suc, ◌-◌, ◌^◌, Bool, Option, none, some, Text, ◌==◌, if◌then◌else◌}
use gamegine.Clock.{TickConversion}
use gamegine.LogRecord.{LogRecord}
use gamegine.Logger.Output.{Output, write_record, write_loss}
use gamegine.Logger.Producer.{Phase, Producer, pop, take_dropped, k_ring_bits}

-- `numeric_limits<std::size_t>::max()`, or a ring's worth.
abbrev pub limit : Phase → ℕ
limit Phase.closed = 2 ^ 64 - 1
limit Phase.live = 2 ^ k_ring_bits

-- One round of the loop: stop on an empty ring, or go on with the record.
abbrev pub round : {A : Type 0} → Option LogRecord → A → (LogRecord → A) → A
round none stop go = stop
round (some r) stop go = go r

module _ (float_to_chars : ℕ → Text) (clock : TickConversion) where
  -- At most so many rounds; how many there were, and what they left.
  unfoldable pub pop_loop : ℕ → Producer → Output → ℕ × Producer × Output
  pop_loop zero p o = (0, p, o)
  pop_loop (suc rounds) p o =
      let popped = pop p in
      let goes_on : LogRecord → ℕ × Producer × Output = λ r.
        let rest = pop_loop rounds popped.1 (write_record float_to_chars clock o r p.name) in
        (suc rest.0, rest.1, rest.2) in
      round popped.0 (0, popped.1, o) goes_on

  -- `Taken` is the phase and whether the limit was met; `tick` is what `write_loss` reads of the clock.
  unfoldable pub drain_one : ℕ → Producer → Output → (Phase × Bool) × Producer × Output
  unfolding pop_loop
  drain_one tick p o =
      let (count, p1, o1) = pop_loop (limit p.phase) p o in
      let (dropped, p2) = take_dropped p1 in
      let o2 =
        if dropped == 0 then o1 else write_loss float_to_chars clock o1 tick p.name dropped in
      ((p.phase, count == limit p.phase), p2, o2)
