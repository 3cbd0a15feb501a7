-- ===== src/SpscRing/Refine.antt =====
-- Each call of a valid ring does what the bounded queue of its values does.
use mathlib.Core.Path.{subst}
use gamegine.Common.{
  ℕ, ◌+◌, ◌^◌, ◌≤◌, ◌<◌, Bool, true, false, Option, none, some, List, [], ◌∷◌, ◌++◌, ◌≡◌, refl, ap₂,
  ◌∙◌, arith, length, ltb, ◌==◌, if◌then◌else◌, add64, sub64,
}
use gamegine.SpscRing.Value.{
  Ring, write_slot, store_head, push_one, fill, push_all, refresh_tail, refresh_head,
}
use gamegine.SpscRing.Slots.{items}
use gamegine.SpscRing.Valid.{IsValid, used, contents, IsFilled, fill-IsFilled}

-- What a ring promises: a queue of at most `2 ^ k` values, oldest first.
module _ {A : Type 0} (k : ℕ) where
  unfoldable pub enqueue : List A → A → Bool × List A
  enqueue q v = if length q == 2 ^ k then (false, q) else (true, q ++ (v ∷ []))

  -- All of the values or none.
  unfoldable pub enqueue_all : List A → List A → Bool × List A
  enqueue_all q values =
      if ltb (2 ^ k) (length q + length values) then (false, q) else (true, q ++ values)

unfoldable pub dequeue : {A : Type 0} → List A → Option A × List A
dequeue [] = (none, [])
dequeue (v ∷ q) = (some v, q)

module _ {A : Type 0} (blank : A) (k : ℕ) where
  -- What a call leaves: a valid ring that holds these values.
  pub record Holds (r : Ring A) (q : List A) : Type 0 where
    pub valid : IsValid k r
    pub holds : contents blank k r ≡ q

  -- Publishing a filled batch appends it.
  store_head-Holds :
      (r r' : Ring A) (values : List A)
      → IsValid k r
      → IsFilled blank k r 0 values r'
      → sub64 r.head r.cached_tail + length values ≤ 2 ^ k
      → Holds (store_head k r' (add64 r.head (length values))) (contents blank k r ++ values)
  store_head-Holds r r' values v f fits = record {
    valid = record {
      small = v.small;
      lap = v.lap;
      storage = f.slots_kept ∙ v.storage;
      head_fits = omega arith;
      tail_fits = omega arith;
      cached_tail_fits = omega arith;
      cached_head_fits = omega arith;
      held = omega arith;
      tail_copy = omega arith;
      tail_copy_near = omega arith;
      head_copy = omega arith;
    };
    holds =
        (let e : sub64 (add64 r.head (length values)) r'.tail ≡ used r + length values =
            omega arith in
          ap₂ (λ (t n : ℕ). items blank k r'.slots t 0 n) f.tail_kept e
          ∙ f.seen (used r) (omega arith));
  }

  pub push_all-Holds :
      (r : Ring A) (values : List A)
      → IsValid k r
      → sub64 r.head r.cached_tail + length values ≤ 2 ^ k
      → Holds (push_all k r values) (contents blank k r ++ values)
  unfolding push_all
  push_all-Holds r values v fits =
      store_head-Holds r (fill k r 0 values) values v
        (fill-IsFilled blank k r 0 values v.small v.storage v.head_fits v.tail_fits
          (omega (arith, v.tail_copy)))
        fits

  pub push_one-Holds :
      (r : Ring A) (x : A)
      → IsValid k r
      → sub64 r.head r.cached_tail < 2 ^ k
      → Holds (push_one k r x) (contents blank k r ++ (x ∷ []))
  unfolding push_one fill
  push_one-Holds r x v fits =
      let e : add64 r.head 0 ≡ r.head = omega (arith, v.head_fits) in
      store_head-Holds r (write_slot k r r.head x) (x ∷ []) v
        (subst (λ (h : ℕ). IsFilled blank k r 0 (x ∷ []) (write_slot k r h x)) e
          (fill-IsFilled blank k r 0 (x ∷ []) v.small v.storage v.head_fits v.tail_fits
            (omega (arith, v.tail_copy))))
        (omega arith)

  pub refresh_tail-Holds :
      (r : Ring A) → IsValid k r → Holds (refresh_tail k r) (contents blank k r)
  refresh_tail-Holds r v = record {
    valid = record {
      small = v.small;
      lap = v.lap;
      storage = v.storage;
      head_fits = v.head_fits;
      tail_fits = v.tail_fits;
      cached_tail_fits = v.tail_fits;
      cached_head_fits = v.cached_head_fits;
      held = v.held;
      tail_copy = omega arith;
      tail_copy_near = v.held;
      head_copy = v.head_copy;
    };
    holds = refl;
  }

  pub refresh_head-Holds :
      (r : Ring A) → IsValid k r → Holds (refresh_head blank k r) (contents blank k r)
  refresh_head-Holds r v = record {
    valid = record {
      small = v.small;
      lap = v.lap;
      storage = v.storage;
      head_fits = v.head_fits;
      tail_fits = v.tail_fits;
      cached_tail_fits = v.cached_tail_fits;
      cached_head_fits = v.head_fits;
      held = v.held;
      tail_copy = v.tail_copy;
      tail_copy_near = v.tail_copy_near;
      head_copy = omega arith;
    };
    holds = refl;
  }
