-- ===== src/SpscRing/Stages.antt =====
-- Where the two threads of a ring stand, and what they have done.
use gamegine.Common.{List}
use gamegine.SpscRing.Value.{Ring}

-- Where the producer stands: before a push, in that of one value with room seen or with the value copied,
-- or in that of a batch, of which some values are copied and some are not.
pub data Producer (A : Type 0) : Type 0 where
  outside : Producer A
  room : A → Producer A
  written : A → Producer A
  filling : List A → List A → Producer A

-- Where the consumer stands in `try_pop`: before it, with a value seen, with the value copied.
pub data Consumer (A : Type 0) : Type 0 where
  away : Consumer A
  seen : Consumer A
  taken : A → Consumer A

-- The ring, the two threads, and every value pushed and popped so far.
pub record System (A : Type 0) : Type 0 where
  pub ring : Ring A
  pub producer : Producer A
  pub consumer : Consumer A
  pub pushed : List A
  pub popped : List A
