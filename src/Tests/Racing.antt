-- ===== src/Tests/Racing.antt =====
-- A thread that logs one record and ends, by single steps, while the logger thread comes by.
use gamegine.Common.{ℕ, [], ◌∷◌, ◌++◌, ◌≡◌, refl, arith}
use gamegine.LogRecord.{LogRecord}
use gamegine.SpscRing.Value.{
  try_push, try_push_all, try_pop, Ring, fresh, write_slot, store_head, refresh_head,
}
use gamegine.SpscRing.Stages.{outside, room, written, away, seen, taken}
use gamegine.SpscRing.Threads.{
  HeadSeen, start, release_slot, find_room, copy_in, publish, load_head_value, load_head_empty,
  copy_out, hand_back,
}
use gamegine.SpscRing.Valid.{IsValid, fresh-IsValid}
use gamegine.SpscRing.Calls.{try_push_lem}
use gamegine.SpscRing.Runs.{Run, lanes, added, taken_out, calls-Run}
use gamegine.Logger.Producer.{Phase, blank, k_ring_bits}
use gamegine.Logger.Closing.{popping, popped, freed}
use gamegine.Logger.Racing.{
  ended, Race, begin, Step, thread_steps, closes, reads_phase, logger_steps, pops_record, pops_none,
  reports, Reachable, at_begin, then_step,
}
use gamegine.Logger.LastUse.{freed_told, freed_last}

abbrev a_record : LogRecord
a_record = record { header = 1_500_000_005; payload = 0x0101 }

abbrev empty_ring : Ring LogRecord
empty_ring = fresh blank k_ring_bits

abbrev filled : Ring LogRecord
filled = write_slot k_ring_bits empty_ring 0 a_record

abbrev full : Ring LogRecord
full = store_head k_ring_bits filled 1

abbrev looked : Ring LogRecord
looked = refresh_head blank k_ring_bits full

abbrev drained : Ring LogRecord
drained = release_slot blank k_ring_bits looked

abbrev started : Race
started = begin

abbrev in_push : Race
in_push = record started { ring = lanes empty_ring (room a_record) away [] [] }

abbrev copied : Race
copied = record started { ring = lanes filled (written a_record) away [] [] }

abbrev pushed : Race
pushed = record started { ring = lanes full outside away (a_record ∷ []) [] }

pushed-Reachable : Reachable pushed
unfolding begin start fresh
pushed-Reachable =
    then_step copied pushed
      (then_step in_push copied
        (then_step started in_push at_begin
          (thread_steps started _ (find_room empty_ring away [] [] a_record refl) refl refl))
        (thread_steps in_push _ (copy_in empty_ring away [] [] a_record) refl refl))
      (thread_steps copied _ (publish filled away [] [] a_record) refl refl)

abbrev closing : Race
closing = record pushed { phase = Phase.closed; thread = ended; stage = popping Phase.closed 0 }

closing-Reachable : Reachable closing
unfolding begin
closing-Reachable =
    then_step (record pushed { phase = Phase.closed; thread = ended }) closing
      (then_step pushed _ pushed-Reachable (closes pushed refl refl))
      (reads_phase (record pushed { phase = Phase.closed; thread = ended }) Phase.closed refl
        (λ e. refl))

abbrev in_pop : Race
in_pop = record closing { ring = lanes looked outside seen (a_record ∷ []) [] }

abbrev copied_out : Race
copied_out = record closing { ring = lanes looked outside (taken a_record) (a_record ∷ []) [] }

abbrev returned : Race
returned = record closing {
  ring = lanes drained outside away (a_record ∷ []) (a_record ∷ []);
  stage = popping Phase.closed 1;
}

full_seen : HeadSeen blank k_ring_bits full 1
unfolding fresh
full_seen = record { fits = omega arith; stored = omega arith; later = omega arith }

drained_seen : HeadSeen blank k_ring_bits drained 1
unfolding fresh
drained_seen = record { fits = omega arith; stored = omega arith; later = omega arith }

returned-Reachable : Reachable returned
unfolding begin fresh
returned-Reachable =
    then_step copied_out returned
      (then_step in_pop copied_out
        (then_step closing in_pop closing-Reachable (
          logger_steps closing _
            (load_head_value full outside (a_record ∷ []) [] 1 full_seen refl refl) Phase.closed 0
            refl (omega arith) refl))
        (logger_steps in_pop _ (copy_out looked outside (a_record ∷ []) []) Phase.closed 0 refl
          (omega arith) refl))
      (pops_record copied_out _ (hand_back looked outside (a_record ∷ []) [] a_record) Phase.closed
        0 refl (omega arith) refl)

abbrev emptied : Race
emptied = record returned {
  ring =
      lanes (refresh_head blank k_ring_bits drained) outside away (a_record ∷ []) (a_record ∷ []);
  stage = popped Phase.closed;
}

abbrev over : Race
over = record emptied { stage = freed }

over-Reachable : Reachable over
unfolding begin fresh
over-Reachable =
    then_step emptied over
      (then_step returned emptied returned-Reachable (
        pops_none returned _
          (load_head_empty drained outside (a_record ∷ []) (a_record ∷ []) 1 drained_seen refl refl)
          Phase.closed 1 refl (omega arith) refl (λ e. refl)))
      (reports emptied Phase.closed 0 refl (omega arith) (omega arith) (λ e. refl))

freed_told_example : (over.ring.popped ≡ over.ring.pushed) × (over.told ≡ over.refused)
freed_told_example = freed_told over over-Reachable (unfold begin in omega arith) refl

freed_last_example : ¬ Step over over
unfolding begin
freed_last_example = freed_last over over over-Reachable (unfold begin in omega arith) refl

abbrev small_ring : Ring ℕ
small_ring = (try_push 1 (fresh 0 1) 5).1

small_ring-IsValid : IsValid 1 small_ring
small_ring-IsValid = (try_push_lem 0 1 (fresh 0 1) 5 (fresh-IsValid 0 1 (omega arith)).0).left.valid

calls-Run_example :
    Run 0 1 (lanes small_ring outside seen (5 ∷ []) []) (
      lanes
        (try_push 1 small_ring 7).1
        outside
        seen
        ((5 ∷ []) ++ added (try_push 1 small_ring 7).0 (7 ∷ []))
        [])
    × Run 0 1 (lanes small_ring outside seen (5 ∷ []) []) (
        lanes
          (try_push_all 1 small_ring (8 ∷ 9 ∷ [])).1
          outside
          seen
          ((5 ∷ []) ++ added (try_push_all 1 small_ring (8 ∷ 9 ∷ [])).0 (8 ∷ 9 ∷ []))
          [])
    × Run 0 1 (lanes small_ring (room 7) away (5 ∷ []) []) (
        lanes
          (try_pop 0 1 small_ring).1
          (room 7)
          away
          (5 ∷ [])
          ([] ++ taken_out (try_pop 0 1 small_ring).0))
calls-Run_example =
    calls-Run 0 1 small_ring (room 7) seen (5 ∷ []) [] (8 ∷ 9 ∷ []) 7 small_ring-IsValid
