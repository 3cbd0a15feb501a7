-- ===== src/Logger/Rounds.antt =====
-- core_log.h: `drain_one`, while the thread of its producer does nothing, beside the steps of the
-- logger thread in Closing.
use gamegine.Common.{
  ℕ, zero, suc, ◌+◌, ◌≤◌, ◌<◌, List, [], ◌∷◌, ◌++◌, ◌≡◌, refl, ap₂, arith, Text, length, take,
  append_assoc, append-nil, sub64, ◌==◌, if◌then◌else◌,
}
use gamegine.Clock.{TickConversion, ns_elapsed_since_start}
use gamegine.LogRecord.{LogRecord}
use gamegine.SpscRing.Valid
use gamegine.SpscRing.Refine.{dequeue}
use gamegine.Logger.Output.{Output, write_record}
use gamegine.Logger.Written
use gamegine.Logger.Written.{said, write_record-said}
use gamegine.Logger.Producer.{Phase, pop, take_dropped, k_ring_bits}
use gamegine.Logger.Drain.{limit, pop_loop, drain_one}
use gamegine.Logger.Drained.{waiting, lines, pop-waiting, pop_loop-Drained}
use gamegine.Logger.Loss.{loss_text, drain_one_lem}
use gamegine.Logger.Closing.{
  elsewhere, popping, popped, Pair, after, Step, accepts, refuses, closes, reads_phase, takes,
  finds_none, meets_limit, reports,
}

-- The steps that are the logger thread's.
abbrev pub ByLogger : {s s' : Pair} → Step s s' → Type 0
ByLogger (accepts s r live e) = ⊥
ByLogger (refuses s r live e) = ⊥
ByLogger (closes s live) = ⊥
ByLogger _ = Unit

-- A run of steps of the logger thread alone.
pub data Run (s : Pair) : Pair → Type 0 where
  stop : Run s s
  step_on : (s' s2 : Pair) → Run s s' → (step : Step s' s2) → ByLogger step → Run s s2

-- The line that `write_loss` writes of a count, if any is lost.
abbrev pub loss_line : ℕ → Text → ℕ → Text
loss_line ns name count = if count == 0 then [] else loss_text ns name count

module _ (float_to_chars : ℕ → Text) (clock : TickConversion) where
  -- The state behind a loop of so many rounds.
  abbrev behind_loop : ℕ → Phase → Pair → Output → Pair
  behind_loop rounds phase s o = record s {
    producer = (pop_loop float_to_chars clock rounds s.producer o).1;
    stage = popped phase;
    written = s.written ++ take rounds (waiting s.producer);
  }

  round-Run :
      (rounds count : ℕ) (phase : Phase) (start s : Pair) (o : Output) (q : List LogRecord)
      → waiting s.producer ≡ q
      → Valid.IsValid k_ring_bits s.producer.ring
      → Run start s
      → s.stage ≡ popping phase count
      → count < limit phase
      → ((s' : Pair) (o' : Output)
          → Valid.IsValid k_ring_bits s'.producer.ring
          → Run start s'
          → s'.stage ≡ popping phase (count + 1)
          → Run start (behind_loop rounds phase s' o'))
      → Run start (behind_loop (suc rounds) phase s o)
  unfolding pop_loop dequeue
  round-Run rounds count phase start s o [] waits v run e below rest =
      let (got, _, _) = pop-waiting s.producer [] waits v in
      rw (got, waits, append-nil s.written)
        (step_on s _ run (finds_none s phase count e below got) tt)
  round-Run rounds count phase start s o (x ∷ q) waits v run e below rest =
      let (got, valid, left) = pop-waiting s.producer (x ∷ q) waits v in
      let s' : Pair = record s {
        producer = (pop s.producer).1;
        stage = popping phase (count + 1);
        written = s.written ++ (x ∷ []);
      } in
      let on =
        rest s' (write_record float_to_chars clock o x s.producer.name) valid
          (step_on s s' run (takes s phase count x e below got) tt) refl in
      rw (got, waits) (rw (left, append_assoc s.written (x ∷ []) (take rounds q)) at on)

  pop_loop-Run :
      (rounds count : ℕ) (phase : Phase) (start s : Pair) (o : Output)
      → Valid.IsValid k_ring_bits s.producer.ring
      → Run start s
      → s.stage ≡ popping phase count
      → count + rounds ≡ limit phase
      → Run start (behind_loop rounds phase s o)
  unfolding pop_loop
  pop_loop-Run zero count phase start s o v run e met =
      rw (append-nil s.written) (step_on s _ run (meets_limit s phase count e (omega arith)) tt)
  pop_loop-Run (suc rounds) count phase start s o v run e met =
      round-Run rounds count phase start s o (waiting s.producer) refl v run e (omega arith)
        (λ s' o' v' run' e'.
          pop_loop-Run rounds (count + 1) phase start s' o' v' run' e' (omega arith))

  -- From a state in which the logger thread is elsewhere, of a producer with a valid ring and a
  -- name of at most 16 characters, and while `write(2)` only takes characters or is interrupted:
  -- what `drain_one` leaves of the producer, and where the phase it returns sends the thread, is
  -- reached from that state by steps of the logger thread alone, which hand on the oldest records
  -- of the ring, as many as the limit of the phase allows, and the losses since the last report;
  -- and `drain_one` adds to the text the lines of just these records, and behind them the report of
  -- just that count if it is not 0.
  pub drain_one-Run :
      (s : Pair) (tick : ℕ) (o : Output)
      → s.stage ≡ elsewhere
      → Valid.IsValid k_ring_bits s.producer.ring
      → length s.producer.name ≤ 16
      → Written.IsValid o
      → Run s (record s {
        producer = (drain_one float_to_chars clock tick s.producer o).1;
        stage = after (drain_one float_to_chars clock tick s.producer o).0.0;
        written = s.written ++ take (limit s.producer.phase) (waiting s.producer);
        told = s.told + sub64 s.producer.dropped s.producer.reported;
      })
        × (said (drain_one float_to_chars clock tick s.producer o).2
            ≡ said o
              ++ (lines float_to_chars clock s.producer.name
                    (take (limit s.producer.phase) (waiting s.producer))
                  ++ loss_line
                      (ns_elapsed_since_start clock tick)
                      s.producer.name
                      (sub64 s.producer.dropped s.producer.reported)))
  unfolding drain_one take_dropped
  drain_one-Run s tick o e v name vo =
      let phase = s.producer.phase in
      let rounds = limit phase in
      let s1 : Pair = record s { stage = popping phase 0 } in
      let d = pop_loop-Drained float_to_chars clock rounds s.producer o v vo in
      let (dropped, reported, _, _) = d.kept in
      let news = ap₂ sub64 dropped reported in
      let behind = behind_loop rounds phase s1 o in
      let run =
        pop_loop-Run rounds 0 phase s s1 o v (step_on s s1 stop (reads_phase s e) tt) refl
          (omega arith) in
      let whole = step_on behind _ run (reports behind phase refl) tt in
      (rw news at whole, (drain_one_lem float_to_chars clock tick s.producer o v name vo).1)
