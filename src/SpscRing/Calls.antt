-- ===== src/SpscRing/Calls.antt =====
-- Each call of a valid ring does what the bounded queue of its values does.
use gamegine.Common.{
  ℕ, suc, ◌+◌, ◌-◌, ◌^◌, ◌≤◌, ◌<◌, Bool, true, false, some, inl, inr, List, [], ◌∷◌, ◌++◌, ◌≡◌,
  refl, sym, ap, ◌∙◌, arith, append-nil, length, get_or, ltb, ◌==◌, if◌then◌else◌, Bool-cases,
  add64, sub64,
}
use gamegine.SpscRing.Value.{
  Ring, slot, try_push, push_all, try_push_all, pop_one, try_pop, refresh_tail, seen_room,
  refresh_head, looks_empty,
}
use gamegine.SpscRing.Slots.{items, items-shift}
use gamegine.SpscRing.Valid.{IsValid, used, contents, length-contents}
use gamegine.SpscRing.Refine.{
  enqueue, enqueue_all, dequeue, Holds, push_all-Holds, push_one-Holds, refresh_tail-Holds,
  refresh_head-Holds,
}

module _ {A : Type 0} (blank : A) (k : ℕ) where
  -- A call that answers as the queue does and leaves what the queue holds.
  pub record Refines {B : Type 0} (result : B × Ring A) (promised : B × List A) : Type 0 where
    pub answer : result.0 ≡ promised.0
    pub left : Holds blank k result.1 promised.1

  -- On a valid ring `try_push` answers as the bounded queue of its values does, and leaves a valid ring
  -- that holds what the queue then holds.
  pub try_push_lem :
      (r : Ring A) (x : A)
      → IsValid k r
      → Refines (try_push k r x) (enqueue k (contents blank k r) x)
  unfolding try_push enqueue
  try_push_lem r x v = rw (length-contents blank k r) (elim (Bool-cases (used r == 2 ^ k)) [
    | inl full ↦
        let e : (sub64 r.head r.cached_tail == 2 ^ k) ≡ true = ground arith in
        rw e (rw full (record { answer = refl; left = refresh_tail-Holds blank k r v }))
    | inr room ↦ elim (Bool-cases (sub64 r.head r.cached_tail == 2 ^ k)) [
      | inl e ↦ rw e (
          rw room (record {
            answer = refl;
            left =
                push_one-Holds blank k (refresh_tail k r) x (refresh_tail-Holds blank k r v).valid
                  (ground arith);
          }))
      | inr e ↦
          rw e
            (rw room (record { answer = refl; left = push_one-Holds blank k r x v (ground arith) }))
    ]
  ])

  -- A batch of at most the capacity, once the room is looked at.
  abbrev push_batch : Ring A → List A → Bool × Ring A
  push_batch r values =
      if ltb (seen_room k r) (length values)
      then if ltb (seen_room k (refresh_tail k r)) (length values)
        then (false, refresh_tail k r)
        else (true, push_all k (refresh_tail k r) values)
      else (true, push_all k r values)

  push_batch-fits :
      (r : Ring A) (values : List A)
      → IsValid k r
      → used r + length values ≤ 2 ^ k
      → Refines (push_batch r values) (true, contents blank k r ++ values)
  push_batch-fits r values v fits =
      let e' : ltb (seen_room k (refresh_tail k r)) (length values) ≡ false = ground arith in
      elim (Bool-cases (ltb (seen_room k r) (length values))) [
        | inl e ↦ rw e (
            rw e' (record {
              answer = refl;
              left =
                  push_all-Holds blank k (refresh_tail k r) values
                    (refresh_tail-Holds blank k r v).valid fits;
            }))
        | inr e ↦
            rw e (record { answer = refl; left = push_all-Holds blank k r values v (ground arith) })
      ]

  push_batch-cut :
      (r : Ring A) (values : List A)
      → IsValid k r
      → 2 ^ k < used r + length values
      → length values ≤ 2 ^ k
      → Refines (push_batch r values) (false, contents blank k r)
  push_batch-cut r values v cut small =
      let e : ltb (seen_room k r) (length values) ≡ true = ground arith in
      let e' : ltb (seen_room k (refresh_tail k r)) (length values) ≡ true = ground arith in
      rw e (rw e' (record { answer = refl; left = refresh_tail-Holds blank k r v }))

  -- On a valid ring `try_push_all` appends all of the values when they fit behind those held, and else
  -- none, answers which, and leaves a valid ring.
  pub try_push_all_lem :
      (r : Ring A) (values : List A)
      → IsValid k r
      → Refines (try_push_all k r values) (enqueue_all k (contents blank k r) values)
  unfolding try_push_all enqueue_all
  try_push_all_lem r [] v = rw (length-contents blank k r) (
      let e : ltb (2 ^ k) (used r + 0) ≡ false = ground arith in
      rw e (record {
        answer = refl;
        left = record { valid = v; holds = sym (append-nil (contents blank k r)) };
      }))
  try_push_all_lem r (x ∷ values) v =
      let z : (suc (length values) == 0) ≡ false = ground arith in
      rw (length-contents blank k r) (
        rw z (elim (Bool-cases (ltb (2 ^ k) (used r + suc (length values)))) [
          | inl cut ↦ rw cut (elim (Bool-cases (ltb (2 ^ k) (suc (length values)))) [
            | inl large ↦
                rw large (record { answer = refl; left = record { valid = v; holds = refl } })
            | inr small ↦ rw small (push_batch-cut r (x ∷ values) v (ground arith) (ground arith))
          ])
          | inr fits ↦
              let small : ltb (2 ^ k) (suc (length values)) ≡ false = ground arith in
              rw fits (rw small (push_batch-fits r (x ∷ values) v (ground arith)))
        ]))

  -- A value read from a valid ring.
  pub pop_one-Refines :
      (r : Ring A)
      → IsValid k r
      → 0 < sub64 r.cached_head r.tail
      → Refines (pop_one blank k r) (dequeue (contents blank k r))
  unfolding pop_one dequeue
  pop_one-Refines r v p =
      let e : used r ≡ suc (used r - 1) = omega (arith, v.head_copy) in
      rw e (record {
        answer =
            ap (λ (c : ℕ). some (get_or r.slots (slot k c) blank)) (omega (arith, v.tail_fits));
        left = record {
          valid = record {
            small = v.small;
            lap = v.lap;
            storage = v.storage;
            head_fits = v.head_fits;
            tail_fits = omega arith;
            cached_tail_fits = v.cached_tail_fits;
            cached_head_fits = v.cached_head_fits;
            held = omega arith;
            tail_copy = omega arith;
            tail_copy_near = v.tail_copy_near;
            head_copy = omega arith;
          };
          holds =
              (let n : sub64 r.head (add64 r.tail 1) ≡ used r - 1 = omega arith in
                ap (items blank k r.slots (add64 r.tail 1) 0) n
                ∙ items-shift blank k r.slots r.tail 0 (used r - 1));
        };
      })

  -- On a valid ring `try_pop` gives the oldest value and takes it away, or nothing from an empty ring,
  -- and leaves a valid ring.
  pub try_pop_lem :
      (r : Ring A) → IsValid k r → Refines (try_pop blank k r) (dequeue (contents blank k r))
  unfolding try_pop dequeue
  try_pop_lem r v = elim (Bool-cases (looks_empty blank k r)) [
    | inl e ↦ rw e (elim (Bool-cases (looks_empty blank k (refresh_head blank k r))) [
      | inl e' ↦
          let z : used r ≡ 0 = ground arith in
          let none_held : contents blank k r ≡ [] = ap (items blank k r.slots r.tail 0) z in
          rw e' (
            rw none_held (record {
              answer = refl;
              left = record { valid = (refresh_head-Holds blank k r v).valid; holds = none_held };
            }))
      | inr e' ↦ rw e' (
          pop_one-Refines (refresh_head blank k r) (refresh_head-Holds blank k r v).valid
            (ground arith))
    ])
    | inr e ↦ rw e (pop_one-Refines r v (ground arith))
  ]
