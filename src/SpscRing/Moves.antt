-- ===== src/SpscRing/Moves.antt =====
-- What a thread's store does to a valid ring's values.
use mathlib.Core.Logic.{◌≢◌}
use gamegine.Common.{
  ℕ, zero, suc, ◌+◌, ◌^◌, ◌≤◌, ◌<◌, length, refl, List, [], ◌∷◌, ◌++◌, ◌≡◌, sym, ap, ap₂, ◌∙◌,
  arith, get_or, set, length-set, add64, sub64,
}
use gamegine.SpscRing.Value.{Ring, slot, write_slot, store_head, read_slot, pop_one}
use gamegine.SpscRing.Slots.{items, items-set_ahead, items-shift, slot-ne}
use gamegine.SpscRing.Valid.{IsValid, used, contents}
use gamegine.SpscRing.Calls.{pop_one-Refines}
use gamegine.SpscRing.Threads.{release_slot}

module _ {A : Type 0} (blank : A) (k : ℕ) where
  items-snoc :
      (slots : List A) (t i n : ℕ)
      → items blank k slots t i (suc n)
        ≡ items blank k slots t i n ++ (get_or slots (slot k (add64 t (i + n))) blank ∷ [])
  items-snoc slots t i zero =
      ap (λ (j : ℕ). get_or slots (slot k (add64 t j)) blank ∷ []) (omega arith)
  items-snoc slots t i (suc n) =
      ap (λ l. get_or slots (slot k (add64 t i)) blank ∷ l)
        (items-snoc slots t (i + 1) n
          ∙ ap
              (λ (j : ℕ).
                items blank k slots t (i + 1) n ++ (get_or slots (slot k (add64 t j)) blank ∷ []))
              (omega arith))

  -- The producer's slot is not the consumer's.
  pub slots_differ :
      (r : Ring A)
      → IsValid k r
      → sub64 r.head r.cached_tail < 2 ^ k
      → 0 < sub64 r.cached_head r.tail
      → slot k r.head ≢ slot k r.tail
  slots_differ r v h h' e =
      slot-ne k r.tail 0 (used r) v.small (omega (arith, v.head_copy)) (omega (arith, v.tail_copy))
        (ap (slot k) (omega (arith, v.head_fits, v.tail_fits))
          ∙ e
          ∙ ap (slot k) (omega (arith, v.tail_fits)))

  pub copy_in-contents :
      (r : Ring A) (x : A)
      → IsValid k r
      → sub64 r.head r.cached_tail < 2 ^ k
      → contents blank k (write_slot k r r.head x) ≡ contents blank k r
  copy_in-contents r x v h =
      let e : r.head ≡ add64 r.tail (used r) = omega (arith, v.head_fits, v.tail_fits) in
      ap (λ (j : ℕ). items blank k (set r.slots (slot k j) x) r.tail 0 (used r)) e
      ∙ items-set_ahead blank k r.slots r.tail 0 (used r) (used r) x v.small (omega arith)
          (omega (arith, v.tail_copy))

  pub publish-contents :
      (r : Ring A) (x : A)
      → IsValid k r
      → sub64 r.head r.cached_tail < 2 ^ k
      → read_slot blank k r r.head ≡ x
      → contents blank k (store_head k r (add64 r.head 1)) ≡ contents blank k r ++ (x ∷ [])
  publish-contents r x v h e =
      let n : sub64 (add64 r.head 1) r.tail ≡ suc (used r) = omega (arith, v.tail_copy, v.lap) in
      let at : add64 r.tail (0 + used r) ≡ r.head = omega (arith, v.head_fits, v.tail_fits) in
      ap (items blank k r.slots r.tail 0) n
      ∙ items-snoc r.slots r.tail 0 (used r)
      ∙ ap (λ (j : ℕ). contents blank k r ++ (get_or r.slots (slot k j) blank ∷ [])) at
      ∙ ap (λ y. contents blank k r ++ (y ∷ [])) e

  pub release-contents :
      (r : Ring A)
      → IsValid k r
      → 0 < sub64 r.cached_head r.tail
      → contents blank k r ≡ read_slot blank k r r.tail ∷ contents blank k (release_slot blank k r)
  release-contents r v h =
      let e : used r ≡ suc (sub64 r.head (add64 r.tail 1)) =
        omega (arith, v.head_copy, v.tail_fits) in
      ap (items blank k r.slots r.tail 0) e
      ∙ ap₂ ◌∷◌ (ap (λ (j : ℕ). get_or r.slots (slot k j) blank) (omega (arith, v.tail_fits)))
          (sym (items-shift blank k r.slots r.tail 0 (sub64 r.head (add64 r.tail 1))))

  pub copy_in-IsValid :
      (r : Ring A) (counter : ℕ) (x : A) → IsValid k r → IsValid k (write_slot k r counter x)
  copy_in-IsValid r counter x v = record {
    small = v.small;
    lap = v.lap;
    storage = length-set r.slots _ x ∙ v.storage;
    head_fits = v.head_fits;
    tail_fits = v.tail_fits;
    cached_tail_fits = v.cached_tail_fits;
    cached_head_fits = v.cached_head_fits;
    held = v.held;
    tail_copy = v.tail_copy;
    tail_copy_near = v.tail_copy_near;
    head_copy = v.head_copy;
  }

  pub publish-IsValid :
      (r : Ring A)
      → IsValid k r
      → sub64 r.head r.cached_tail < 2 ^ k
      → IsValid k (store_head k r (add64 r.head 1))
  publish-IsValid r v h = record {
    small = v.small;
    lap = v.lap;
    storage = v.storage;
    head_fits = omega arith;
    tail_fits = v.tail_fits;
    cached_tail_fits = v.cached_tail_fits;
    cached_head_fits = v.cached_head_fits;
    held = omega (arith, v.tail_copy, v.lap);
    tail_copy = omega (arith, v.tail_copy, v.lap);
    tail_copy_near = omega (arith, v.lap);
    head_copy = omega (arith, v.tail_copy, v.lap);
  }

  pub release-IsValid :
      (r : Ring A)
      → IsValid k r
      → 0 < sub64 r.cached_head r.tail
      → IsValid k (release_slot blank k r)
  unfolding pop_one
  release-IsValid r v h = (pop_one-Refines blank k r v h).left.valid

  -- The slot of the `i`-th value of a batch is not the consumer's.
  pub slots_differ_all :
      (r : Ring A) (i : ℕ)
      → IsValid k r
      → sub64 r.head r.cached_tail + i < 2 ^ k
      → 0 < sub64 r.cached_head r.tail
      → slot k (add64 r.head i) ≢ slot k r.tail
  slots_differ_all r i v h h' e =
      slot-ne k r.tail 0 (used r + i) v.small (omega (arith, v.head_copy))
        (omega (arith, v.tail_copy))
        (ap (slot k) (omega (arith, v.head_fits, v.tail_fits))
          ∙ e
          ∙ ap (slot k) (omega (arith, v.tail_fits)))

  pub copy_in_all-contents :
      (r : Ring A) (i : ℕ) (x : A)
      → IsValid k r
      → sub64 r.head r.cached_tail + i < 2 ^ k
      → contents blank k (write_slot k r (add64 r.head i) x) ≡ contents blank k r
  copy_in_all-contents r i x v h =
      let e : add64 r.head i ≡ add64 r.tail (used r + i) =
        omega (arith, v.head_fits, v.tail_fits) in
      ap (λ (j : ℕ). items blank k (set r.slots (slot k j) x) r.tail 0 (used r)) e
      ∙ items-set_ahead blank k r.slots r.tail 0 (used r) (used r + i) x v.small (omega arith)
          (omega (arith, v.tail_copy))

  items-append :
      (slots : List A) (t i n m : ℕ)
      → items blank k slots t i (n + m)
        ≡ items blank k slots t i n ++ items blank k slots t (i + n) m
  items-append slots t i zero m =
      ap₂ (λ (a b : ℕ). items blank k slots t a b) (omega arith) (omega arith)
  items-append slots t i (suc n) m =
      let e : suc n + m ≡ suc (n + m) = omega arith in
      ap (items blank k slots t i) e
      ∙ ap (λ l. get_or slots (slot k (add64 t i)) blank ∷ l)
          (items-append slots t (i + 1) n m
            ∙ ap (λ (a : ℕ). items blank k slots t (i + 1) n ++ items blank k slots t a m)
                (omega arith))

  -- Counted from the head, and from the tail.
  items-head :
      (slots : List A) (t h u i n : ℕ)
      → h ≡ add64 t u
      → items blank k slots t (u + i) n ≡ items blank k slots h i n
  items-head slots t h u i zero e = refl
  items-head slots t h u i (suc n) e =
      ap₂ ◌∷◌ (ap (λ (c : ℕ). get_or slots (slot k c) blank) (omega arith)) (
        ap (λ (j : ℕ). items blank k slots t j n) (omega arith)
        ∙ items-head slots t h u (i + 1) n e)

  pub publish_all-contents :
      (r : Ring A) (values : List A)
      → IsValid k r
      → sub64 r.head r.cached_tail + length values ≤ 2 ^ k
      → items blank k r.slots r.head 0 (length values) ≡ values
      → contents blank k (store_head k r (add64 r.head (length values)))
        ≡ contents blank k r ++ values
  publish_all-contents r values v h e =
      let n : sub64 (add64 r.head (length values)) r.tail ≡ used r + length values =
        omega (arith, v.tail_copy, v.lap) in
      let at : r.head ≡ add64 r.tail (used r) = omega (arith, v.head_fits, v.tail_fits) in
      ap (items blank k r.slots r.tail 0) n
      ∙ items-append r.slots r.tail 0 (used r) (length values)
      ∙ ap (λ l. contents blank k r ++ l)
          (ap (λ (j : ℕ). items blank k r.slots r.tail j (length values)) (omega arith)
            ∙ items-head r.slots r.tail r.head (used r) 0 (length values) at
            ∙ e)

  pub publish_all-IsValid :
      (r : Ring A) (n : ℕ)
      → IsValid k r
      → sub64 r.head r.cached_tail + n ≤ 2 ^ k
      → IsValid k (store_head k r (add64 r.head n))
  publish_all-IsValid r n v h = record {
    small = v.small;
    lap = v.lap;
    storage = v.storage;
    head_fits = omega arith;
    tail_fits = v.tail_fits;
    cached_tail_fits = v.cached_tail_fits;
    cached_head_fits = v.cached_head_fits;
    held = omega (arith, v.tail_copy, v.lap);
    tail_copy = omega (arith, v.tail_copy, v.lap);
    tail_copy_near = omega (arith, v.lap);
    head_copy = omega (arith, v.tail_copy, v.lap);
  }
