-- ===== src/SpscRing/Valid.antt =====
-- The representation invariant of a ring and the values that it holds, oldest first. Counters are
-- compared by 64-bit differences, so nothing here supposes that they have not wrapped.
use native.Mathlib.Nat.{pow-le-pow_right}
use gamegine.Common.{
  ℕ, suc, ◌+◌, ◌^◌, ◌≤◌, ◌<◌, List, [], ◌∷◌, ◌++◌, ◌≡◌, refl, sym, ap, ◌∙◌, arith, append_assoc,
  append-nil, length, set, length-set, length-replicate, add64, sub64,
}
use gamegine.SpscRing.Value.{Ring, slot, fresh, write_slot, fill}
use gamegine.SpscRing.Slots.{items, length-items, items-set_end}

-- `[tail, head)` belongs to the consumer and is at most a lap; each side's copy of the other's counter
-- is behind the counter, and not behind its own by more than a lap.
pub record IsValid {A : Type 0} (k : ℕ) (r : Ring A) : Type 0 where
  pub small : k < 64
  pub lap : 2 ^ k ≤ 2 ^ 63
  pub storage : length r.slots ≡ 2 ^ k
  pub head_fits : r.head < 2 ^ 64
  pub tail_fits : r.tail < 2 ^ 64
  pub cached_tail_fits : r.cached_tail < 2 ^ 64
  pub cached_head_fits : r.cached_head < 2 ^ 64
  pub held : sub64 r.head r.tail ≤ 2 ^ k
  pub tail_copy : sub64 r.head r.tail ≤ sub64 r.head r.cached_tail
  pub tail_copy_near : sub64 r.head r.cached_tail ≤ 2 ^ k
  pub head_copy : sub64 r.cached_head r.tail ≤ sub64 r.head r.tail

abbrev pub used : {A : Type 0} → Ring A → ℕ
used r = sub64 r.head r.tail

module _ {A : Type 0} (blank : A) (k : ℕ) where
  abbrev pub contents : Ring A → List A
  contents r = items blank k r.slots r.tail 0 (used r)

  pub length-contents : (r : Ring A) → length (contents r) ≡ used r
  length-contents r = length-items blank k r.slots r.tail 0 (used r)

  -- A new ring is valid and empty.
  pub fresh-IsValid : k < 64 → IsValid k (fresh blank k) × (contents (fresh blank k) ≡ [])
  unfolding fresh
  fresh-IsValid h = (
    record {
      small = h;
      lap = pow-le-pow_right {n = 2} (omega arith) {i = k} {j = 63} (omega arith);
      storage = length-replicate (2 ^ k) blank;
      head_fits = omega arith;
      tail_fits = omega arith;
      cached_tail_fits = omega arith;
      cached_head_fits = omega arith;
      held = omega arith;
      tail_copy = omega arith;
      tail_copy_near = omega arith;
      head_copy = omega arith;
    },
    refl,
  )

  -- What the copy of a batch changes, with `i` values copied before it: the slots behind those held.
  pub record IsFilled (r : Ring A) (i : ℕ) (values : List A) (r' : Ring A) : Type 0 where
    pub head_kept : r'.head ≡ r.head
    pub tail_kept : r'.tail ≡ r.tail
    pub cached_tail_kept : r'.cached_tail ≡ r.cached_tail
    pub cached_head_kept : r'.cached_head ≡ r.cached_head
    pub slots_kept : length r'.slots ≡ length r.slots
    pub seen :
        (n : ℕ)
        → n ≡ used r + i
        → items blank k r'.slots r.tail 0 (n + length values)
          ≡ items blank k r.slots r.tail 0 n ++ values

  IsFilled-cons :
      (r : Ring A) (i : ℕ) (v : A) (values : List A) {r'' : Ring A}
      → k < 64
      → length r.slots ≡ 2 ^ k
      → r.head < 2 ^ 64
      → r.tail < 2 ^ 64
      → used r + i < 2 ^ k
      → IsFilled (write_slot k r (add64 r.head i) v) (i + 1) values r''
      → IsFilled r i (v ∷ values) r''
  IsFilled-cons r i v values hk hs hh ht fits rest = record {
    head_kept = rest.head_kept;
    tail_kept = rest.tail_kept;
    cached_tail_kept = rest.cached_tail_kept;
    cached_head_kept = rest.cached_head_kept;
    slots_kept = rest.slots_kept ∙ length-set r.slots _ v;
    seen = λ n e.
        let e' : n + suc (length values) ≡ suc n + length values = omega arith in
        rw e' (
          rest.seen (suc n) (omega arith)
          ∙ ap (λ t. t ++ values) (first n e)
          ∙ append_assoc (items blank k r.slots r.tail 0 n) (v ∷ []) values);
  }
    where
      r' : Ring A
      r' = write_slot k r (add64 r.head i) v

      first :
          (n : ℕ)
          → n ≡ used r + i
          → items blank k r'.slots r.tail 0 (suc n) ≡ items blank k r.slots r.tail 0 n ++ (v ∷ [])
      first n e =
          let c : add64 r.head i ≡ add64 r.tail n = omega arith in
          ap (λ (x : ℕ). items blank k (set r.slots (slot k x) v) r.tail 0 (suc n)) c
          ∙ items-set_end blank k r.slots r.tail 0 n n v hk hs (omega arith) (omega arith)

  pub fill-IsFilled :
      (r : Ring A) (i : ℕ) (values : List A)
      → k < 64
      → length r.slots ≡ 2 ^ k
      → r.head < 2 ^ 64
      → r.tail < 2 ^ 64
      → used r + i + length values ≤ 2 ^ k
      → IsFilled r i values (fill k r i values)
  unfolding fill
  fill-IsFilled r i [] hk hs hh ht fits = record {
    head_kept = refl;
    tail_kept = refl;
    cached_tail_kept = refl;
    cached_head_kept = refl;
    slots_kept = refl;
    seen = λ n e.
        let e' : n + 0 ≡ n = omega arith in
        rw e' (sym (append-nil (items blank k r.slots r.tail 0 n)));
  }
  fill-IsFilled r i (v ∷ values) hk hs hh ht fits =
      IsFilled-cons r i v values hk hs hh ht (omega arith) (
        fill-IsFilled (write_slot k r (add64 r.head i) v) (i + 1) values hk
          (length-set r.slots _ v ∙ hs) hh ht (omega arith))
