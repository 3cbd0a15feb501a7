-- ===== src/SpscRing/Runs.antt =====
-- A call of the ring, made while the other thread stands still, is a run of its thread's steps.
use gamegine.Common.{
  ℕ, ◌+◌, Bool, true, false, inl, inr, Bool-cases, Option, none, some, List, [], ◌∷◌, ◌++◌, ◌≡◌,
  refl, arith, length, length-append, append_assoc, append-nil, ltb, ◌==◌, ◌^◌, add64, length_zero,
}
use gamegine.SpscRing.Value.{
  Ring, try_push, try_push_all, try_pop, push_one, pop_one, push_all, fill, write_slot, looks_full,
  refresh_tail, seen_room, looks_empty, refresh_head, read_slot,
}
use gamegine.SpscRing.Valid.{IsValid}
use gamegine.SpscRing.Stages.{
  Producer, outside, room, written, filling, Consumer, away, seen, taken, System,
}
use gamegine.SpscRing.Threads.{
  TailSeen, HeadSeen, Step, find_room, load_tail_room, load_tail_full, copy_in, publish,
  find_room_all, load_tail_room_all, load_tail_full_all, copy_in_all, publish_all, find_value,
  load_head_value, load_head_empty, copy_out, hand_back,
}

abbrev pub lanes : {A : Type 0} → Ring A → Producer A → Consumer A → List A → List A → System A
lanes r p c ins outs = record { ring = r; producer = p; consumer = c; pushed = ins; popped = outs }

-- The values that a push adds, by its answer, and that a pop takes.
abbrev pub added : {A : Type 0} → Bool → List A → List A
added true values = values
added false values = []

abbrev pub taken_out : {A : Type 0} → Option A → List A
taken_out none = []
taken_out (some v) = v ∷ []

module _ {A : Type 0} (blank : A) (k : ℕ) where
  pub data Run (s : System A) : System A → Type 0 where
    stop : Run s s
    step_on : (s' s2 : System A) → Run s s' → Step blank k s' s2 → Run s s2

  last_tail : (r : Ring A) → IsValid k r → TailSeen blank k r r.tail
  last_tail r valid = record {
    fits = valid.tail_fits;
    stored = omega arith;
    later = valid.tail_copy;
  }

  last_head : (r : Ring A) → IsValid k r → HeadSeen blank k r r.head
  last_head r valid = record {
    fits = valid.head_fits;
    stored = omega arith;
    later = valid.head_copy;
  }

  then_copies :
      (s : System A) (r : Ring A) (c : Consumer A) (ins outs : List A) (v : A)
      → Run s (lanes r (room v) c ins outs)
      → Run s (lanes (push_one k r v) outside c (ins ++ (v ∷ [])) outs)
  unfolding push_one
  then_copies s r c ins outs v run =
      step_on _ _
        (step_on (lanes r (room v) c ins outs)
          (lanes (write_slot k r r.head v) (written v) c ins outs) run (copy_in r c ins outs v))
        (publish (write_slot k r r.head v) c ins outs v)

  try_push_runs :
      (r : Ring A) (c : Consumer A) (ins outs : List A) (v : A)
      → IsValid k r
      → Run
          (lanes r outside c ins outs)
          (lanes (try_push k r v).1 outside c (ins ++ added (try_push k r v).0 (v ∷ [])) outs)
  unfolding try_push
  try_push_runs r c ins outs v valid =
      let start = lanes r outside c ins outs in
      elim (Bool-cases (looks_full k r)) [
        | inr e ↦
            rw e (then_copies start r c ins outs v (step_on _ _ stop (find_room r c ins outs v e)))
        | inl e ↦ elim (Bool-cases (looks_full k (refresh_tail k r))) [
          | inr e' ↦
              rw (e, e')
                (then_copies start (refresh_tail k r) c ins outs v (
                  step_on _ _ stop (load_tail_room r c ins outs v r.tail (last_tail r valid) e e')))
          | inl e' ↦
              rw (e, e', append-nil ins)
                (step_on _ _ stop (load_tail_full r c ins outs r.tail (last_tail r valid) e e'))
        ]
      ]

  then_fills :
      (s : System A) (r : Ring A) (c : Consumer A) (ins outs done todo : List A)
      → Run s (lanes r (filling done todo) c ins outs)
      → Run s (lanes (fill k r (length done) todo) (filling (done ++ todo) []) c ins outs)
        × ((fill k r (length done) todo).head ≡ r.head)
  unfolding fill
  then_fills s r c ins outs done [] run = (rw (append-nil done) run, refl)
  then_fills s r c ins outs done (v ∷ todo) run =
      let longer : length (done ++ (v ∷ [])) ≡ length done + 1 = length-append done (v ∷ []) in
      let r' = write_slot k r (add64 r.head (length done)) v in
      let (next, head) =
        then_fills s r' c ins outs (done ++ (v ∷ [])) todo
          (step_on _ _ run (copy_in_all r c ins outs done v todo)) in
      (rw (longer, append_assoc done (v ∷ []) todo) at next, rw longer at head)

  then_fills_all :
      (s : System A) (r : Ring A) (c : Consumer A) (ins outs values : List A)
      → Run s (lanes r (filling [] values) c ins outs)
      → Run s (lanes (push_all k r values) outside c (ins ++ values) outs)
  unfolding push_all
  then_fills_all s r c ins outs values run =
      let (filled, head) = then_fills s r c ins outs [] values run in
      let next = step_on _ _ filled (publish_all (fill k r 0 values) c ins outs values) in
      rw head at next

  try_push_all_runs :
      (r : Ring A) (c : Consumer A) (ins outs values : List A)
      → IsValid k r
      → Run (lanes r outside c ins outs) (
          lanes
            (try_push_all k r values).1
            outside
            c
            (ins ++ added (try_push_all k r values).0 values)
            outs)
  unfolding try_push_all
  try_push_all_runs r c ins outs values valid =
      let start = lanes r outside c ins outs in
      elim (Bool-cases (length values == 0)) [
        | inl z ↦
            let empty = length_zero values (ground arith) in rw (z, empty, append-nil ins) stop
        | inr z ↦ elim (Bool-cases (ltb (2 ^ k) (length values))) [
          | inl big ↦ rw (z, big, append-nil ins) stop
          | inr small ↦ elim (Bool-cases (ltb (seen_room k r) (length values))) [
            | inr e ↦
                rw (z, small, e)
                  (then_fills_all start r c ins outs values
                    (step_on _ _ stop (find_room_all r c ins outs values small e)))
            | inl e ↦ elim (Bool-cases (ltb (seen_room k (refresh_tail k r)) (length values))) [
              | inr e' ↦
                  rw (z, small, e, e')
                    (then_fills_all start (refresh_tail k r) c ins outs values (
                      step_on _ _ stop (
                        load_tail_room_all r c ins outs values r.tail (last_tail r valid) small e
                          e')))
              | inl e' ↦
                  rw (z, small, e, e', append-nil ins)
                    (step_on _ _ stop (
                      load_tail_full_all r c ins outs values r.tail (last_tail r valid) small e e'))
            ]
          ]
        ]
      ]

  then_takes :
      (s : System A) (r : Ring A) (p : Producer A) (ins outs : List A)
      → Run s (lanes r p seen ins outs)
      → Run s (lanes (pop_one blank k r).1 p away ins (outs ++ taken_out (pop_one blank k r).0))
  unfolding pop_one
  then_takes s r p ins outs run =
      step_on _ _
        (step_on (lanes r p seen ins outs) (lanes r p (taken (read_slot blank k r r.tail)) ins outs)
          run (copy_out r p ins outs))
        (hand_back r p ins outs (read_slot blank k r r.tail))

  try_pop_runs :
      (r : Ring A) (p : Producer A) (ins outs : List A)
      → IsValid k r
      → Run
          (lanes r p away ins outs)
          (lanes (try_pop blank k r).1 p away ins (outs ++ taken_out (try_pop blank k r).0))
  unfolding try_pop
  try_pop_runs r p ins outs valid =
      let start = lanes r p away ins outs in
      elim (Bool-cases (looks_empty blank k r)) [
        | inr e ↦
            rw e (then_takes start r p ins outs (step_on _ _ stop (find_value r p ins outs e)))
        | inl e ↦ elim (Bool-cases (looks_empty blank k (refresh_head blank k r))) [
          | inr e' ↦
              rw (e, e')
                (then_takes start (refresh_head blank k r) p ins outs
                  (step_on _ _ stop (load_head_value r p ins outs r.head (last_head r valid) e e')))
          | inl e' ↦
              rw (e, e', append-nil outs)
                (step_on _ _ stop (load_head_empty r p ins outs r.head (last_head r valid) e e'))
        ]
      ]

  -- From any valid ring, a push of a value, a push of a batch and a pop, made while the other
  -- thread stands still wherever it is, each are a run of the steps of their thread, which ends
  -- with the ring that the call leaves and with the values that the call took or returned.
  pub calls-Run :
      (r : Ring A) (p : Producer A) (c : Consumer A) (ins outs values : List A) (v : A)
      → IsValid k r
      → Run
          (lanes r outside c ins outs)
          (lanes (try_push k r v).1 outside c (ins ++ added (try_push k r v).0 (v ∷ [])) outs)
        × Run (lanes r outside c ins outs) (
            lanes
              (try_push_all k r values).1
              outside
              c
              (ins ++ added (try_push_all k r values).0 values)
              outs)
        × Run
            (lanes r p away ins outs)
            (lanes (try_pop blank k r).1 p away ins (outs ++ taken_out (try_pop blank k r).0))
  calls-Run r p c ins outs values v valid = (
    try_push_runs r c ins outs v valid,
    try_push_all_runs r c ins outs values valid,
    try_pop_runs r p ins outs valid,
  )
