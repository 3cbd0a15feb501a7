-- ===== src/SpscRing/Sees.antt =====
-- What each thread knows of the ring, after the other's steps.
use gamegine.Common.{
  ℕ, suc, ◌+◌, List, set, length-append, ◌^◌, ◌≤◌, ◌<◌, [], ◌∷◌, ◌++◌, ◌≡◌, ap, ◌∙◌, arith, length,
  get_or-set_ne, add64, sub64,
}
use gamegine.SpscRing.Value.{Ring, slot, see_tail, write_slot, store_head, see_head, read_slot}
use gamegine.SpscRing.Slots.{items, items-set_end}
use gamegine.SpscRing.Valid.{IsValid}
use gamegine.SpscRing.Moves.{slots_differ, slots_differ_all}
use gamegine.SpscRing.Stages.{
  filling, Producer, outside, room, written, Consumer, away, seen, taken,
}
use gamegine.SpscRing.Threads.{release_slot, TailSeen, HeadSeen}

module _ {A : Type 0} (blank : A) (k : ℕ) where
  -- What the producer knows of the ring at each of its steps.
  abbrev pub ProducerSees : Ring A → Producer A → Type 0
  ProducerSees r outside = Unit
  ProducerSees r (room v) = sub64 r.head r.cached_tail < 2 ^ k
  ProducerSees r (written v) =
      (sub64 r.head r.cached_tail < 2 ^ k) × (read_slot blank k r r.head ≡ v)
  ProducerSees r (filling done todo) =
      (sub64 r.head r.cached_tail + (length done + length todo) ≤ 2 ^ k)
      × (items blank k r.slots r.head 0 (length done) ≡ done)

  abbrev pub ConsumerSees : Ring A → Consumer A → Type 0
  ConsumerSees r away = Unit
  ConsumerSees r seen = 0 < sub64 r.cached_head r.tail
  ConsumerSees r (taken v) = (0 < sub64 r.cached_head r.tail) × (read_slot blank k r r.tail ≡ v)

  -- A load of the other thread's counter, late or not.
  pub see_tail-IsValid :
      (r : Ring A) (t : ℕ) → TailSeen blank k r t → IsValid k r → IsValid k (see_tail k r t)
  see_tail-IsValid r t may v = record {
    small = v.small;
    lap = v.lap;
    storage = v.storage;
    head_fits = v.head_fits;
    tail_fits = v.tail_fits;
    cached_tail_fits = may.fits;
    cached_head_fits = v.cached_head_fits;
    held = v.held;
    tail_copy = may.stored;
    tail_copy_near = omega (arith, may.later, v.tail_copy_near);
    head_copy = v.head_copy;
  }

  pub see_head-IsValid :
      (r : Ring A) (h : ℕ) → HeadSeen blank k r h → IsValid k r → IsValid k (see_head blank k r h)
  see_head-IsValid r h may v = record {
    small = v.small;
    lap = v.lap;
    storage = v.storage;
    head_fits = v.head_fits;
    tail_fits = v.tail_fits;
    cached_tail_fits = v.cached_tail_fits;
    cached_head_fits = may.fits;
    held = v.held;
    tail_copy = v.tail_copy;
    tail_copy_near = v.tail_copy_near;
    head_copy = may.stored;
  }

  -- What a thread knows, after the other's step.
  pub copy_in-ConsumerSees :
      (r : Ring A) (x : A) (c : Consumer A)
      → IsValid k r
      → sub64 r.head r.cached_tail < 2 ^ k
      → ConsumerSees r c
      → ConsumerSees (write_slot k r r.head x) c
  copy_in-ConsumerSees r x away v h sees = tt
  copy_in-ConsumerSees r x seen v h sees = sees
  copy_in-ConsumerSees r x (taken y) v h (some_value, e) = (
    some_value,
    get_or-set_ne r.slots (slot k r.head) (slot k r.tail) x blank
          (slots_differ blank k r v h some_value)
        ∙ e,
  )

  pub load_head-ProducerSees :
      (r : Ring A) (h : ℕ) (p : Producer A)
      → ProducerSees r p
      → ProducerSees (see_head blank k r h) p
  load_head-ProducerSees r h outside sees = tt
  load_head-ProducerSees r h (room x) sees = sees
  load_head-ProducerSees r h (written x) sees = sees
  load_head-ProducerSees r h (filling done todo) sees = sees

  pub load_tail-ConsumerSees :
      (r : Ring A) (t : ℕ) (c : Consumer A) → ConsumerSees r c → ConsumerSees (see_tail k r t) c
  load_tail-ConsumerSees r t away sees = tt
  load_tail-ConsumerSees r t seen sees = sees
  load_tail-ConsumerSees r t (taken x) sees = sees

  pub publish-ConsumerSees :
      (r : Ring A) (c : Consumer A)
      → ConsumerSees r c
      → ConsumerSees (store_head k r (add64 r.head 1)) c
  publish-ConsumerSees r away sees = tt
  publish-ConsumerSees r seen sees = sees
  publish-ConsumerSees r (taken x) sees = sees

  pub release-ProducerSees :
      (r : Ring A) (p : Producer A) → ProducerSees r p → ProducerSees (release_slot blank k r) p
  release-ProducerSees r outside sees = tt
  release-ProducerSees r (room x) sees = sees
  release-ProducerSees r (written x) sees = sees
  release-ProducerSees r (filling done todo) sees = sees

  pub copy_in_all-ConsumerSees :
      (r : Ring A) (i : ℕ) (x : A) (c : Consumer A)
      → IsValid k r
      → sub64 r.head r.cached_tail + i < 2 ^ k
      → ConsumerSees r c
      → ConsumerSees (write_slot k r (add64 r.head i) x) c
  copy_in_all-ConsumerSees r i x away v h sees = tt
  copy_in_all-ConsumerSees r i x seen v h sees = sees
  copy_in_all-ConsumerSees r i x (taken y) v h (some_value, e) = (
    some_value,
    get_or-set_ne r.slots (slot k (add64 r.head i)) (slot k r.tail) x blank
          (slots_differ_all blank k r i v h some_value)
        ∙ e,
  )

  pub publish_all-ConsumerSees :
      (r : Ring A) (n : ℕ) (c : Consumer A)
      → ConsumerSees r c
      → ConsumerSees (store_head k r (add64 r.head n)) c
  publish_all-ConsumerSees r n away sees = tt
  publish_all-ConsumerSees r n seen sees = sees
  publish_all-ConsumerSees r n (taken x) sees = sees

  -- The producer's own copy of the next value of a batch.
  pub copy_in_all-ProducerSees :
      (r : Ring A) (done : List A) (v : A) (todo : List A)
      → IsValid k r
      → ProducerSees r (filling done (v ∷ todo))
      → ProducerSees
          (write_slot k r (add64 r.head (length done)) v)
          (filling (done ++ (v ∷ [])) todo)
  copy_in_all-ProducerSees r done v todo valid (fits, e) =
      let n = length-append done (v ∷ []) in
      let n' : length (done ++ (v ∷ [])) ≡ suc (length done) = omega arith in
      (
        omega arith,
        ap (items blank k (set r.slots (slot k (add64 r.head (length done))) v) r.head 0) n'
            ∙ items-set_end blank k r.slots r.head 0 (length done) (length done) v valid.small
                valid.storage (omega arith) (omega arith)
            ∙ ap (λ l. l ++ (v ∷ [])) e,
      )
