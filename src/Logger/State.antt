-- ===== src/Logger/State.antt =====
-- The `Logger`: its slots, the shared producer and the batch, and the passes of the logger thread.
use gamegine.Common.{
  ℕ, suc, Bool, true, false, ◌||◌, Option, none, some, List, [], ◌∷◌, Text, codes, replicate, all,
  if◌then◌else◌,
}
use gamegine.Clock.{TickConversion}
use gamegine.LogRecord
use gamegine.LogRecord.{LogRecord, Severity}
use gamegine.Error.{Error}
use gamegine.LogMessage.{LogMessage}
use gamegine.Logger.Output.{Answer, Output, k_batch_size, flush}
use gamegine.Logger.Producer.{Phase, Producer, make, push, k_max_threads}
use gamegine.Logger.Drain.{drain_one}

abbrev k_shared_name : Text
k_shared_name = codes "shared"

pub record Logger : Type 0 where
  pub slots : List (Option Producer)
  pub shared : Producer
  pub output : Output

-- `Logger::Logger`, over a file that answers so. The conversion of ticks is a parameter of each call.
unfoldable pub start : List Answer → Logger
unfolding make
start answers = record {
  slots = replicate k_max_threads none;
  shared = make k_shared_name;
  output = record { batch = replicate k_batch_size 0; size = 0; answers = answers; out = [] };
}

-- The calls of the threads that have no handle, which a mutex makes take turns.
unfoldable pub push_locked : Logger → LogRecord → Logger
unfolding push
push_locked l r = record l { shared = push l.shared r }

unfoldable pub log_error_locked : Logger → Severity → ℕ → Error → Logger
unfolding push_locked
log_error_locked l level tick e = push_locked l (LogRecord.make_error level tick e)

unfoldable pub log_message_locked : Logger → Severity → ℕ → LogMessage → Logger
unfolding push_locked
log_message_locked l level tick m = push_locked l (LogRecord.make_message level tick m)

-- A drained slot: a producer whose phase was read as closed is freed.
abbrev pub after_drain : Phase → Producer → Option Producer
after_drain Phase.live p = some p
after_drain Phase.closed p = none

abbrev pub is_free : Option Producer → Bool
is_free none = true
is_free (some p) = false

module _ (float_to_chars : ℕ → Text) (clock : TickConversion) where
  -- The loop of `drain`. `ticks` is what the clock reads at each slot from here on.
  unfoldable pub drain_slots :
      (ℕ → ℕ) → Bool → List (Option Producer) → Output → Bool × List (Option Producer) × Output
  unfolding drain_one
  drain_slots ticks behind [] o = (behind, [], o)
  drain_slots ticks behind (none ∷ slots) o =
      let rest = drain_slots (λ i. ticks (suc i)) behind slots o in (rest.0, none ∷ rest.1, rest.2)
  drain_slots ticks behind (some p ∷ slots) o =
      let one = drain_one float_to_chars clock (ticks 0) p o in
      let rest = drain_slots (λ i. ticks (suc i)) (behind || one.0.1) slots one.2 in
      (rest.0, after_drain one.0.0 one.1 ∷ rest.1, rest.2)

  -- Whether a ring gave a whole pass's worth, and the logger.
  unfoldable pub drain : (ℕ → ℕ) → Logger → Bool × Logger
  unfolding drain_slots
  drain ticks l =
      let (behind, slots, o) = drain_slots ticks false l.slots l.output in
      let (taken, shared, o') = drain_one float_to_chars clock (ticks k_max_threads) l.shared o in
      (taken.1 || behind, record { slots = slots; shared = shared; output = o' })

  -- One round of `consume`.
  unfoldable pub pass : (ℕ → ℕ) → Logger → Bool × Logger
  unfolding drain flush
  pass ticks l =
      let (behind, l') = drain ticks l in (behind, record l' { output = flush l'.output })

  -- `consume`, while no other thread does anything: a round for each poll of the stop token that finds
  -- no request, and whether it sleeps after each.
  unfoldable pub consume : List (ℕ → ℕ) → Logger → List Bool × Logger
  unfolding pass
  consume [] l = ([], l)
  consume (ticks ∷ polls) l =
      let (behind, l') = pass ticks l in
      let rest = consume polls l' in ((sleeps behind ∷ rest.0), rest.1)
    where
      sleeps : Bool → Bool
      sleeps true = false
      sleeps false = true

  -- `~Logger`, once the logger thread is joined; none where its assertion fails.
  unfoldable pub destroy : (ℕ → ℕ) → Logger → Option Logger
  unfolding pass
  destroy ticks l = let l' = (pass ticks l).1 in if all is_free l'.slots then some l' else none
