-- ===== src/Logger/System.antt =====
-- A `Logger` among the threads that use it: one step for each call on it, on a handle, or of its own
-- thread. A step is a whole call, so no thread's push stands between the two halves of a pass.
use gamegine.Common.{ℕ, ◌+◌, Option, some, List, [], ◌∷◌, ◌++◌, ◌≡◌, Text, All}
use gamegine.Clock.{TickConversion}
use gamegine.Error.{Error}
use gamegine.Error.Outcome.{value, unexpected}
use gamegine.LogRecord.{LogRecord}
use gamegine.Logger.Output.{Answer}
use gamegine.Logger.Written.{Works}
use gamegine.Logger.Producer.{Producer, register_current_thread}
use gamegine.Logger.State.{Logger, start, push_locked, pass, consume}
use gamegine.Logger.Handle
use gamegine.Logger.Handle.{Handle}

-- The logger, the handles that are not destroyed yet, and how many records were logged.
pub record System : Type 0 where
  pub logger : Logger
  pub handles : List Handle
  pub logged : ℕ

module _ (float_to_chars : ℕ → Text) (clock : TickConversion) where
  pub data Step : System → System → Type 0 where
    registers :
        (l : Logger) (hs : List Handle) (n thread i : ℕ) (name : Text)
        (slots : List (Option Producer))
        → register_current_thread l.slots name ≡ (value i, slots)
        → Step
            (record { logger = l; handles = hs; logged = n })
            (record {
              logger = record l { slots = slots };
              handles = Handle.make thread i ∷ hs;
              logged = n;
            })
    refused :
        (l : Logger) (hs : List Handle) (n : ℕ) (name : Text) (e : Error)
        (slots : List (Option Producer))
        → register_current_thread l.slots name ≡ (unexpected e, slots)
        → Step
            (record { logger = l; handles = hs; logged = n })
            (record { logger = record l { slots = slots }; handles = hs; logged = n })
    moves :
        (l : Logger) (before : List Handle) (h : Handle) (after : List Handle) (n : ℕ)
        → Step
            (record { logger = l; handles = before ++ (h ∷ after); logged = n })
            (record {
              logger = l;
              handles = before ++ ((Handle.move h).0 ∷ (Handle.move h).1 ∷ after);
              logged = n;
            })
    logs :
        (l : Logger) (before : List Handle) (h : Handle) (after : List Handle) (n thread : ℕ)
        (r : LogRecord) (slots : List (Option Producer))
        → Handle.push thread h r l.slots ≡ some slots
        → Step
            (record { logger = l; handles = before ++ (h ∷ after); logged = n })
            (record {
              logger = record l { slots = slots };
              handles = before ++ (h ∷ after);
              logged = n + 1;
            })
    logs_locked :
        (l : Logger) (hs : List Handle) (n : ℕ) (r : LogRecord)
        → Step
            (record { logger = l; handles = hs; logged = n })
            (record { logger = push_locked l r; handles = hs; logged = n + 1 })
    closes :
        (l : Logger) (before : List Handle) (h : Handle) (after : List Handle) (n : ℕ)
        → Step
            (record { logger = l; handles = before ++ (h ∷ after); logged = n })
            (record {
              logger = record l { slots = Handle.destroy h l.slots };
              handles = before ++ after;
              logged = n;
            })
    passes :
        (l : Logger) (hs : List Handle) (n : ℕ) (ticks : ℕ → ℕ)
        → Step
            (record { logger = l; handles = hs; logged = n })
            (record { logger = (pass float_to_chars clock ticks l).1; handles = hs; logged = n })

  -- What the calls of a program lead to, from a logger over a file that only takes characters or is
  -- interrupted.
  pub data Reachable : System → Type 0 where
    at_start :
        (answers : List Answer)
        → All Works answers
        → Reachable (record { logger = start answers; handles = []; logged = 0 })
    then_step : (s s' : System) → Reachable s → Step s s' → Reachable s'

  -- The rounds of `consume`, while no other thread does anything, are passes.
  consume-Reachable :
      (polls : List (ℕ → ℕ)) (l : Logger) (hs : List Handle) (n : ℕ)
      → Reachable (record { logger = l; handles = hs; logged = n })
      → Reachable
          (record { logger = (consume float_to_chars clock polls l).1; handles = hs; logged = n })
  unfolding consume
  consume-Reachable [] l hs n r = r
  consume-Reachable (ticks ∷ polls) l hs n r =
      let l' = (pass float_to_chars clock ticks l).1 in
      consume-Reachable polls l' hs n (then_step _ _ r (passes l hs n ticks))
