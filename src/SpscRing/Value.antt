-- ===== src/SpscRing/Value.antt =====
-- The state of a `SpscRing` and its calls, each run without interruption. A slot holds a value of the
-- trivially copyable type; `blank` is the value of zeroed bytes. The capacity is `2 ^ k`.
use gamegine.Common.{
  ℕ, ◌+◌, ◌-◌, ◌^◌, Bool, true, false, Option, none, some, List, [], ◌∷◌, length, get_or, set,
  replicate, ltb, ◌==◌, if◌then◌else◌, add64, sub64, bit_and,
}

-- The producer writes `head` and `cached_tail`, the consumer `tail` and `cached_head`.
pub record Ring (A : Type 0) : Type 0 where
  pub head : ℕ
  pub cached_tail : ℕ
  pub tail : ℕ
  pub cached_head : ℕ
  pub slots : List A

-- The number of the slot for a counter: `counter & k_MASK`, in a ring of `2 ^ k` slots.
abbrev pub slot : ℕ → ℕ → ℕ
slot k counter = bit_and counter (2 ^ k - 1)

module _ {A : Type 0} (blank : A) (k : ℕ) where
  -- An empty ring, its slots zeroed.
  unfoldable pub fresh : Ring A
  fresh = record {
    head = 0;
    cached_tail = 0;
    tail = 0;
    cached_head = 0;
    slots = replicate (2 ^ k) blank;
  }

module _ {A : Type 0} (k : ℕ) where
  -- `head - d_cached_tail == t_CAPACITY`
  abbrev pub looks_full : Ring A → Bool
  looks_full r = sub64 r.head r.cached_tail == 2 ^ k

  -- `d_cached_tail = seen`
  abbrev pub see_tail : Ring A → ℕ → Ring A
  see_tail r seen = record r { cached_tail = seen }

  -- `d_cached_tail = d_tail.load(acquire)`
  abbrev pub refresh_tail : Ring A → Ring A
  refresh_tail r = record r { cached_tail = r.tail }

  -- `std::memcpy(slot(counter), value)`
  abbrev pub write_slot : Ring A → ℕ → A → Ring A
  write_slot r counter v = record r { slots = set r.slots (slot k counter) v }

  abbrev pub store_head : Ring A → ℕ → Ring A
  store_head r h = record r { head = h }

  -- Write the slot, then publish.
  unfoldable pub push_one : Ring A → A → Ring A
  push_one r v = store_head (write_slot r r.head v) (add64 r.head 1)

  unfoldable pub try_push : Ring A → A → Bool × Ring A
  unfolding push_one
  try_push r v =
      if looks_full r
      then (let r' = refresh_tail r in if looks_full r' then (false, r') else (true, push_one r' v))
      else (true, push_one r v)

  -- `t_CAPACITY - (head - d_cached_tail)`
  abbrev pub seen_room : Ring A → ℕ
  seen_room r = sub64 (2 ^ k) (sub64 r.head r.cached_tail)

  -- The loop that copies a batch, its `i`-th value to the slot for `head + i`.
  unfoldable pub fill : Ring A → ℕ → List A → Ring A
  fill r i [] = r
  fill r i (v ∷ values) = fill (write_slot r (add64 r.head i) v) (i + 1) values

  unfoldable pub push_all : Ring A → List A → Ring A
  unfolding fill
  push_all r values = store_head (fill r 0 values) (add64 r.head (length values))

  unfoldable pub try_push_all : Ring A → List A → Bool × Ring A
  unfolding push_all
  try_push_all r values =
      if length values == 0
      then (true, r)
      else if ltb (2 ^ k) (length values)
      then (false, r)
      else if ltb (seen_room r) (length values)
      then (let r' = refresh_tail r in
          if ltb (seen_room r') (length values) then (false, r') else (true, push_all r' values))
      else (true, push_all r values)

module _ {A : Type 0} (blank : A) (k : ℕ) where
  abbrev pub looks_empty : Ring A → Bool
  looks_empty r = r.tail == r.cached_head

  abbrev pub see_head : Ring A → ℕ → Ring A
  see_head r seen = record r { cached_head = seen }

  abbrev pub refresh_head : Ring A → Ring A
  refresh_head r = record r { cached_head = r.head }

  abbrev pub read_slot : Ring A → ℕ → A
  read_slot r counter = get_or r.slots (slot k counter) blank

  -- Read the slot, then hand it back.
  unfoldable pub pop_one : Ring A → Option A × Ring A
  pop_one r = (some (read_slot r r.tail), record r { tail = add64 r.tail 1 })

  unfoldable pub try_pop : Ring A → Option A × Ring A
  unfolding pop_one
  try_pop r =
      if looks_empty r
      then (let r' = refresh_head r in if looks_empty r' then (none, r') else pop_one r')
      else pop_one r
