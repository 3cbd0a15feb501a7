-- ===== src/Logger/Handle.antt =====
-- `Logger::Handle`: the right of one thread to push into one slot.
use gamegine.Common.{
  ℕ, zero, suc, Option, none, some, List, [], ◌∷◌, ◌==◌, if◌then◌else◌, get_elem?,
}
use gamegine.Error.{Error}
use gamegine.LogMessage.{LogMessage}
use gamegine.LogRecord
use gamegine.LogRecord.{LogRecord, Severity}
use gamegine.Logger.Producer
use gamegine.Logger.Producer.{Producer, close}

-- `producer` is the number of the slot whose producer the handle points to; none once moved from.
pub record Handle : Type 0 where
  pub producer : Option ℕ
  pub owner : ℕ

unfoldable pub make : ℕ → ℕ → Handle
make thread i = record { producer = some i; owner = thread }

-- The move constructor: the new handle, and what is left of the original.
unfoldable pub move : Handle → Handle × Handle
move original = (
  record { producer = original.producer; owner = original.owner },
  record original { producer = none },
)

-- A call on the producer that a slot points to; a free slot points to none.
abbrev pub at_slot : (Producer → Producer) → List (Option Producer) → ℕ → List (Option Producer)
at_slot f [] i = []
at_slot f (none ∷ slots) zero = none ∷ slots
at_slot f (some p ∷ slots) zero = some (f p) ∷ slots
at_slot f (slot ∷ slots) (suc i) = slot ∷ at_slot f slots i

-- What `push` does to the slots once its assertions hold; none is a dangling pointer.
abbrev pub push_at :
    LogRecord
    → List (Option Producer)
    → ℕ
    → Option (Option Producer)
    → Option (List (Option Producer))
push_at r slots i (some (some p)) = some (at_slot (λ q. Producer.push q r) slots i)
push_at r slots i _ = none

abbrev pub push_to : LogRecord → List (Option Producer) → Option ℕ → Option (List (Option Producer))
push_to r slots none = none
push_to r slots (some i) = push_at r slots i (get_elem? slots i)

-- `push`, called by a thread; none where an assertion fails.
unfoldable pub push :
    ℕ → Handle → LogRecord → List (Option Producer) → Option (List (Option Producer))
push thread h r slots = if h.owner == thread then push_to r slots h.producer else none

unfoldable pub log_error :
    ℕ → Handle → Severity → ℕ → Error → List (Option Producer) → Option (List (Option Producer))
unfolding push
log_error thread h level tick e slots = push thread h (LogRecord.make_error level tick e) slots

unfoldable pub log_message :
    ℕ
    → Handle
    → Severity
    → ℕ
    → LogMessage
    → List (Option Producer)
    → Option (List (Option Producer))
unfolding push
log_message thread h level tick m slots = push thread h (LogRecord.make_message level tick m) slots

abbrev close_at : List (Option Producer) → Option ℕ → List (Option Producer)
close_at slots none = slots
close_at slots (some i) = at_slot close slots i

-- `~Handle`
unfoldable pub destroy : Handle → List (Option Producer) → List (Option Producer)
unfolding close
destroy h slots = close_at slots h.producer
