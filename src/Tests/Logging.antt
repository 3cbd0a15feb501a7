-- ===== src/Tests/Logging.antt =====
-- The logger's producers, slots and batch.
use gamegine.Common.{
  take, drop, min, ◌==◌, ℕ, none, some, [], ◌∷◌, ◌++◌, ◌≡◌, arith, Text, codes, length, replicate,
  length-replicate,
}
use gamegine.Clock.{TickConversion}
use gamegine.LogRecord.{LogRecord}
use gamegine.SpscRing.Valid
use gamegine.SpscRing.Valid.{fresh-IsValid}
use gamegine.Logger.Output.{Output, wrote, interrupted}
use gamegine.Logger.Written
use gamegine.Logger.Written.{said, write_record-said}
use gamegine.Logger.Producer.{Phase, Producer, make, push, blank, k_ring_bits}
use gamegine.Logger.Drain.{limit, drain_one}
use gamegine.Logger.Loss.{report, drain_one_lem}
use gamegine.Logger.Drained.{waiting, lines}
use gamegine.Logger.Ledger.{push-cases, Registered, register_current_thread_lem}

abbrev float_text : ℕ → Text
float_text bits = codes "0.5"

abbrev clock : TickConversion
clock = record { start = 5; num = 1; denom = 1 }

abbrev a_record : LogRecord
a_record = record { header = 1_500_000_005; payload = 0x0101 }

-- A batch that is nearly full, over a file that is interrupted and then takes a few characters.
abbrev nearly_full : Output
nearly_full = record {
  batch = replicate 65536 b'x';
  size = 60000;
  answers = interrupted ∷ wrote 100 ∷ [];
  out = [];
}

nearly_full-IsValid : Written.IsValid nearly_full
nearly_full-IsValid = record {
  batch_size = length-replicate {A = ℕ} 65536 b'x';
  used = omega arith;
  works = (tt, (omega arith, tt));
}

abbrev render : Producer
render = make (codes "render")

render-IsValid : Valid.IsValid k_ring_bits render.ring
unfolding make
render-IsValid = (fresh-IsValid blank k_ring_bits (omega arith)).0

abbrev pushed : Producer
pushed = push render a_record

pushed-IsValid : Valid.IsValid k_ring_bits pushed.ring
pushed-IsValid = (push-cases render a_record render-IsValid).0

register_current_thread_lem_example : Registered (some render ∷ none ∷ []) (codes "audio")
register_current_thread_lem_example =
    register_current_thread_lem (some render ∷ none ∷ []) (codes "audio")

-- A thread that has finished, with a record waiting and two drops to report.
abbrev finished : Producer
finished = record {
  ring = pushed.ring;
  phase = Phase.closed;
  dropped = 3;
  reported = 1;
  name = codes "render";
}

drain_one_lem_example :
    Written.IsValid (drain_one float_text clock 9 finished nearly_full).2
    × (said (drain_one float_text clock 9 finished nearly_full).2
        ≡ said nearly_full
          ++ (lines float_text clock finished.name (take (limit finished.phase) (waiting finished))
              ++ report float_text clock 9 finished))
    × (waiting (drain_one float_text clock 9 finished nearly_full).1
        ≡ drop (limit finished.phase) (waiting finished))
    × ((drain_one float_text clock 9 finished nearly_full).1.reported ≡ finished.dropped)
    × ((drain_one float_text clock 9 finished nearly_full).0 ≡ (
      finished.phase,
      min (limit finished.phase) (length (waiting finished)) == limit finished.phase,
    ))
drain_one_lem_example =
    drain_one_lem float_text clock 9 finished nearly_full pushed-IsValid (omega arith)
      nearly_full-IsValid
