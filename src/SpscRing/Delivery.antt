-- ===== src/SpscRing/Delivery.antt =====
-- However the two threads' steps interleave, values come out as they went in, and no slot is read
-- while it is written.
use mathlib.Core.Logic.{◌≢◌}
use mathlib.Core.Path.{subst}
use gamegine.Common.{
  ℕ, ◌+◌, Option, some, none, ◌^◌, ◌≤◌, ◌<◌, [], ◌∷◌, ◌++◌, ◌≡◌, refl, sym, ap, ◌∙◌, arith,
  append_assoc, length, get_or-set_self, add64, sub64,
}
use gamegine.SpscRing.Value.{Ring, slot}
use gamegine.SpscRing.Slots.{slot-lt}
use gamegine.SpscRing.Valid.{IsValid, contents, length-contents, fresh-IsValid}
use gamegine.SpscRing.Moves.{
  slots_differ, slots_differ_all, copy_in_all-contents, publish_all-contents, publish_all-IsValid,
  copy_in-contents, publish-contents, release-contents, copy_in-IsValid, publish-IsValid,
  release-IsValid,
}
use gamegine.SpscRing.Stages.{filling, Producer, outside, room, written, seen, System}
use gamegine.SpscRing.Threads.{
  find_room_all, load_tail_room_all, load_tail_full_all, copy_in_all, publish_all, release_slot,
  start, Step, find_room, load_tail_room, load_tail_full, copy_in, publish, find_value,
  load_head_value, load_head_empty, copy_out, hand_back, Reachable, at_start, then_step,
}
use gamegine.SpscRing.Sees.{
  ProducerSees, ConsumerSees, copy_in-ConsumerSees, load_head-ProducerSees, load_tail-ConsumerSees,
  publish-ConsumerSees, release-ProducerSees, copy_in_all-ConsumerSees, publish_all-ConsumerSees,
  copy_in_all-ProducerSees, see_tail-IsValid, see_head-IsValid,
}

module _ {A : Type 0} (blank : A) (k : ℕ) where
  pub record Invariant (s : System A) : Type 0 where
    pub valid : IsValid k s.ring
    pub delivered : s.pushed ≡ s.popped ++ contents blank k s.ring
    pub producer_sees : ProducerSees blank k s.ring s.producer
    pub consumer_sees : ConsumerSees blank k s.ring s.consumer

  Step-Invariant : (s s' : System A) → Step blank k s s' → Invariant s → Invariant s'
  Step-Invariant _ _ (find_room r c ins outs v e) i = record {
    valid = i.valid;
    delivered = i.delivered;
    producer_sees = ground (arith, i.valid.tail_copy_near);
    consumer_sees = i.consumer_sees;
  }
  Step-Invariant _ _ (load_tail_room r c ins outs v t may e e') i = record {
    valid = see_tail-IsValid blank k r t may i.valid;
    delivered = i.delivered;
    producer_sees = ground (arith, may.later, i.valid.tail_copy_near);
    consumer_sees = load_tail-ConsumerSees blank k r t c i.consumer_sees;
  }
  Step-Invariant _ _ (load_tail_full r c ins outs t may e e') i = record {
    valid = see_tail-IsValid blank k r t may i.valid;
    delivered = i.delivered;
    producer_sees = tt;
    consumer_sees = load_tail-ConsumerSees blank k r t c i.consumer_sees;
  }
  Step-Invariant _ _ (copy_in r c ins outs v) i = record {
    valid = copy_in-IsValid blank k r r.head v i.valid;
    delivered =
        i.delivered
        ∙ ap (λ l. outs ++ l) (sym (copy_in-contents blank k r v i.valid i.producer_sees));
    producer_sees = (
      i.producer_sees,
      get_or-set_self r.slots (slot k r.head) v blank
          (omega (arith, slot-lt k r.head, i.valid.storage)),
    );
    consumer_sees = copy_in-ConsumerSees blank k r v c i.valid i.producer_sees i.consumer_sees;
  }
  Step-Invariant _ _ (publish r c ins outs v) i = record {
    valid = publish-IsValid blank k r i.valid i.producer_sees.0;
    delivered =
        (ap (λ l. l ++ (v ∷ [])) i.delivered
          ∙ append_assoc outs (contents blank k r) (v ∷ [])
          ∙ ap (λ l. outs ++ l)
              (sym (publish-contents blank k r v i.valid i.producer_sees.0 i.producer_sees.1)));
    producer_sees = tt;
    consumer_sees = publish-ConsumerSees blank k r c i.consumer_sees;
  }
  Step-Invariant _ _ (find_room_all r c ins outs values small fits) i = record {
    valid = i.valid;
    delivered = i.delivered;
    producer_sees = (ground (arith, i.valid.tail_copy_near), refl);
    consumer_sees = i.consumer_sees;
  }
  Step-Invariant _ _ (load_tail_room_all r c ins outs values t may small e fits) i = record {
    valid = see_tail-IsValid blank k r t may i.valid;
    delivered = i.delivered;
    producer_sees = (ground (arith, may.later, i.valid.tail_copy_near), refl);
    consumer_sees = load_tail-ConsumerSees blank k r t c i.consumer_sees;
  }
  Step-Invariant _ _ (load_tail_full_all r c ins outs values t may small e e') i = record {
    valid = see_tail-IsValid blank k r t may i.valid;
    delivered = i.delivered;
    producer_sees = tt;
    consumer_sees = load_tail-ConsumerSees blank k r t c i.consumer_sees;
  }
  Step-Invariant _ _ (copy_in_all r c ins outs done v todo) i =
      let space : sub64 r.head r.cached_tail + length done < 2 ^ k =
        omega (arith, i.producer_sees.0) in
      record {
        valid = copy_in-IsValid blank k r (add64 r.head (length done)) v i.valid;
        delivered =
            i.delivered
            ∙ ap (λ l. outs ++ l)
                (sym (copy_in_all-contents blank k r (length done) v i.valid space));
        producer_sees = copy_in_all-ProducerSees blank k r done v todo i.valid i.producer_sees;
        consumer_sees =
            copy_in_all-ConsumerSees blank k r (length done) v c i.valid space i.consumer_sees;
      }
  Step-Invariant _ _ (publish_all r c ins outs done) i =
      let fits : sub64 r.head r.cached_tail + length done ≤ 2 ^ k =
        omega (arith, i.producer_sees.0) in
      record {
        valid = publish_all-IsValid blank k r (length done) i.valid fits;
        delivered =
            ap (λ l. l ++ done) i.delivered
            ∙ append_assoc outs (contents blank k r) done
            ∙ ap (λ l. outs ++ l)
                (sym (publish_all-contents blank k r done i.valid fits i.producer_sees.1));
        producer_sees = tt;
        consumer_sees = publish_all-ConsumerSees blank k r (length done) c i.consumer_sees;
      }
  Step-Invariant _ _ (find_value r p ins outs e) i = record {
    valid = i.valid;
    delivered = i.delivered;
    producer_sees = i.producer_sees;
    consumer_sees = ground (arith, i.valid.tail_fits, i.valid.cached_head_fits);
  }
  Step-Invariant _ _ (load_head_value r p ins outs h may e e') i = record {
    valid = see_head-IsValid blank k r h may i.valid;
    delivered = i.delivered;
    producer_sees = load_head-ProducerSees blank k r h p i.producer_sees;
    consumer_sees = ground (arith, i.valid.tail_fits, may.fits);
  }
  Step-Invariant _ _ (load_head_empty r p ins outs h may e e') i = record {
    valid = see_head-IsValid blank k r h may i.valid;
    delivered = i.delivered;
    producer_sees = load_head-ProducerSees blank k r h p i.producer_sees;
    consumer_sees = tt;
  }
  Step-Invariant _ _ (copy_out r p ins outs) i = record {
    valid = i.valid;
    delivered = i.delivered;
    producer_sees = i.producer_sees;
    consumer_sees = (i.consumer_sees, refl);
  }
  Step-Invariant _ _ (hand_back r p ins outs v) i = record {
    valid = release-IsValid blank k r i.valid i.consumer_sees.0;
    delivered =
        (i.delivered
          ∙ ap (λ l. outs ++ l)
              (release-contents blank k r i.valid i.consumer_sees.0
                ∙ ap (λ y. y ∷ contents blank k (release_slot blank k r)) i.consumer_sees.1)
          ∙ sym (append_assoc outs (v ∷ []) (contents blank k (release_slot blank k r))));
    producer_sees = release-ProducerSees blank k r p i.producer_sees;
    consumer_sees = tt;
  }

  pub Reachable-Invariant : (s : System A) → k < 64 → Reachable blank k s → Invariant s
  unfolding start
  Reachable-Invariant _ h at_start =
      let f = fresh-IsValid blank k h in
      record { valid = f.0; delivered = sym f.1; producer_sees = tt; consumer_sees = tt }
  Reachable-Invariant _ h (then_step s s' before step) =
      Step-Invariant s s' step (Reachable-Invariant s h before)

  -- However the steps of the producer, which pushes single values and batches, and of the consumer
  -- interleave, and however late their loads of each other's counter are, from an empty ring of
  -- fewer than 2 ^ 64 slots, what was pushed is what was popped followed by what the ring holds, in
  -- order, and the ring holds at most its capacity.
  pub Reachable-delivers :
      (s : System A)
      → k < 64
      → Reachable blank k s
      → (s.pushed ≡ s.popped ++ contents blank k s.ring)
        × (length (contents blank k s.ring) ≤ 2 ^ k)
  Reachable-delivers s h reach =
      let i = Reachable-Invariant s h reach in
      (i.delivered, omega (arith, length-contents blank k s.ring, i.valid.held))

  -- The counter whose slot the producer may copy into.
  abbrev pub copies_to : ℕ → Producer A → Option ℕ
  copies_to head (room v) = some head
  copies_to head (filling done (v ∷ todo)) = some (add64 head (length done))
  copies_to head _ = none

  copies_to-differs :
      (r : Ring A) (p : Producer A) (c : ℕ)
      → IsValid k r
      → 0 < sub64 r.cached_head r.tail
      → ProducerSees blank k r p
      → copies_to r.head p ≡ some c
      → slot k c ≢ slot k r.tail
  copies_to-differs r outside c v h sees e = absurd (cc e)
  copies_to-differs r (room x) c v h sees e =
      let here : r.head ≡ c = cc e in rw (sym here) (slots_differ blank k r v sees h)
  copies_to-differs r (written x) c v h sees e = absurd (cc e)
  copies_to-differs r (filling done []) c v h sees e = absurd (cc e)
  copies_to-differs r (filling done (x ∷ todo)) c v h sees e =
      let here : add64 r.head (length done) ≡ c = cc e in
      rw (sym here) (slots_differ_all blank k r (length done) v (omega (arith, sees.0)) h)

  -- In every reachable state, of a ring of fewer than 2 ^ 64 slots, in which the producer may copy
  -- a value of a push or of a batch into a slot while the consumer may copy out of its own, the two
  -- slots are different, so neither copies a value that the other is copying.
  pub Reachable-no_race :
      (s : System A) (c : ℕ)
      → k < 64
      → Reachable blank k s
      → copies_to s.ring.head s.producer ≡ some c
      → s.consumer ≡ seen
      → slot k c ≢ slot k s.ring.tail
  Reachable-no_race s c h reach ep ec =
      let i = Reachable-Invariant s h reach in
      copies_to-differs s.ring s.producer c i.valid
        (subst (ConsumerSees blank k s.ring) ec i.consumer_sees) i.producer_sees ep
