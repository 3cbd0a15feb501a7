-- ===== src/SpscRing/Threads.antt =====
-- The two threads of a ring as interleaved steps: each atomic load or store, and each copy of a value,
-- is a step, and a thread's work on its own copies goes with the step before it. A value written
-- before the release store of a counter is seen after the acquire load that reads it. The load of the
-- other thread's counter may be late: it reads a count from its last copy to what is stored.
use gamegine.Common.{
  ℕ, ◌≤◌, ◌<◌, sub64, true, false, List, [], ◌∷◌, ◌++◌, ◌≡◌, ◌^◌, length, ltb, add64,
}
use gamegine.SpscRing.Value.{
  Ring, fresh, looks_full, see_tail, write_slot, store_head, looks_empty, see_head, read_slot,
  seen_room,
}
use gamegine.SpscRing.Stages.{
  Producer, outside, room, written, filling, Consumer, away, seen, taken, System,
}

module _ {A : Type 0} (blank : A) (k : ℕ) where
  abbrev pub release_slot : Ring A → Ring A
  release_slot r = record r { tail = add64 r.tail 1 }

  -- What a load of the other thread's counter may read, by how far it is from one's own.
  pub record TailSeen (r : Ring A) (seen : ℕ) : Type 0 where
    pub fits : seen < 2 ^ 64
    pub stored : sub64 r.head r.tail ≤ sub64 r.head seen
    pub later : sub64 r.head seen ≤ sub64 r.head r.cached_tail

  pub record HeadSeen (r : Ring A) (seen : ℕ) : Type 0 where
    pub fits : seen < 2 ^ 64
    pub stored : sub64 seen r.tail ≤ sub64 r.head r.tail
    pub later : sub64 r.cached_head r.tail ≤ sub64 seen r.tail

  unfoldable pub start : System A
  start = record {
    ring = fresh blank k;
    producer = outside;
    consumer = away;
    pushed = [];
    popped = [];
  }

  -- A step of either thread.
  pub data Step : System A → System A → Type 0 where
    find_room :
        (r : Ring A) (c : Consumer A) (ins outs : List A) (v : A)
        → looks_full k r ≡ false
        → Step
            (record { ring = r; producer = outside; consumer = c; pushed = ins; popped = outs })
            (record { ring = r; producer = room v; consumer = c; pushed = ins; popped = outs })
    load_tail_room :
        (r : Ring A) (c : Consumer A) (ins outs : List A) (v : A) (seen_tail : ℕ)
        → TailSeen r seen_tail
        → looks_full k r ≡ true
        → looks_full k (see_tail k r seen_tail) ≡ false
        → Step
            (record { ring = r; producer = outside; consumer = c; pushed = ins; popped = outs })
            (record {
              ring = see_tail k r seen_tail;
              producer = room v;
              consumer = c;
              pushed = ins;
              popped = outs;
            })
    load_tail_full :
        (r : Ring A) (c : Consumer A) (ins outs : List A) (seen_tail : ℕ)
        → TailSeen r seen_tail
        → looks_full k r ≡ true
        → looks_full k (see_tail k r seen_tail) ≡ true
        → Step
            (record { ring = r; producer = outside; consumer = c; pushed = ins; popped = outs })
            (record {
              ring = see_tail k r seen_tail;
              producer = outside;
              consumer = c;
              pushed = ins;
              popped = outs;
            })
    copy_in :
        (r : Ring A) (c : Consumer A) (ins outs : List A) (v : A)
        → Step
            (record { ring = r; producer = room v; consumer = c; pushed = ins; popped = outs })
            (record {
              ring = write_slot k r r.head v;
              producer = written v;
              consumer = c;
              pushed = ins;
              popped = outs;
            })
    publish :
        (r : Ring A) (c : Consumer A) (ins outs : List A) (v : A)
        → Step
            (record { ring = r; producer = written v; consumer = c; pushed = ins; popped = outs })
            (record {
              ring = store_head k r (add64 r.head 1);
              producer = outside;
              consumer = c;
              pushed = ins ++ (v ∷ []);
              popped = outs;
            })
    find_room_all :
        (r : Ring A) (c : Consumer A) (ins outs values : List A)
        → ltb (2 ^ k) (length values) ≡ false
        → ltb (seen_room k r) (length values) ≡ false
        → Step
            (record { ring = r; producer = outside; consumer = c; pushed = ins; popped = outs })
            (record {
              ring = r;
              producer = filling [] values;
              consumer = c;
              pushed = ins;
              popped = outs;
            })
    load_tail_room_all :
        (r : Ring A) (c : Consumer A) (ins outs values : List A) (seen_tail : ℕ)
        → TailSeen r seen_tail
        → ltb (2 ^ k) (length values) ≡ false
        → ltb (seen_room k r) (length values) ≡ true
        → ltb (seen_room k (see_tail k r seen_tail)) (length values) ≡ false
        → Step
            (record { ring = r; producer = outside; consumer = c; pushed = ins; popped = outs })
            (record {
              ring = see_tail k r seen_tail;
              producer = filling [] values;
              consumer = c;
              pushed = ins;
              popped = outs;
            })
    load_tail_full_all :
        (r : Ring A) (c : Consumer A) (ins outs values : List A) (seen_tail : ℕ)
        → TailSeen r seen_tail
        → ltb (2 ^ k) (length values) ≡ false
        → ltb (seen_room k r) (length values) ≡ true
        → ltb (seen_room k (see_tail k r seen_tail)) (length values) ≡ true
        → Step
            (record { ring = r; producer = outside; consumer = c; pushed = ins; popped = outs })
            (record {
              ring = see_tail k r seen_tail;
              producer = outside;
              consumer = c;
              pushed = ins;
              popped = outs;
            })
    copy_in_all :
        (r : Ring A) (c : Consumer A) (ins outs done : List A) (v : A) (todo : List A)
        → Step
            (record {
              ring = r;
              producer = filling done (v ∷ todo);
              consumer = c;
              pushed = ins;
              popped = outs;
            })
            (record {
              ring = write_slot k r (add64 r.head (length done)) v;
              producer = filling (done ++ (v ∷ [])) todo;
              consumer = c;
              pushed = ins;
              popped = outs;
            })
    publish_all :
        (r : Ring A) (c : Consumer A) (ins outs done : List A)
        → Step
            (record {
              ring = r;
              producer = filling done [];
              consumer = c;
              pushed = ins;
              popped = outs;
            })
            (record {
              ring = store_head k r (add64 r.head (length done));
              producer = outside;
              consumer = c;
              pushed = ins ++ done;
              popped = outs;
            })
    find_value :
        (r : Ring A) (p : Producer A) (ins outs : List A)
        → looks_empty blank k r ≡ false
        → Step
            (record { ring = r; producer = p; consumer = away; pushed = ins; popped = outs })
            (record { ring = r; producer = p; consumer = seen; pushed = ins; popped = outs })
    load_head_value :
        (r : Ring A) (p : Producer A) (ins outs : List A) (seen_head : ℕ)
        → HeadSeen r seen_head
        → looks_empty blank k r ≡ true
        → looks_empty blank k (see_head blank k r seen_head) ≡ false
        → Step
            (record { ring = r; producer = p; consumer = away; pushed = ins; popped = outs })
            (record {
              ring = see_head blank k r seen_head;
              producer = p;
              consumer = seen;
              pushed = ins;
              popped = outs;
            })
    load_head_empty :
        (r : Ring A) (p : Producer A) (ins outs : List A) (seen_head : ℕ)
        → HeadSeen r seen_head
        → looks_empty blank k r ≡ true
        → looks_empty blank k (see_head blank k r seen_head) ≡ true
        → Step
            (record { ring = r; producer = p; consumer = away; pushed = ins; popped = outs })
            (record {
              ring = see_head blank k r seen_head;
              producer = p;
              consumer = away;
              pushed = ins;
              popped = outs;
            })
    copy_out :
        (r : Ring A) (p : Producer A) (ins outs : List A)
        → Step
            (record { ring = r; producer = p; consumer = seen; pushed = ins; popped = outs })
            (record {
              ring = r;
              producer = p;
              consumer = taken (read_slot blank k r r.tail);
              pushed = ins;
              popped = outs;
            })
    hand_back :
        (r : Ring A) (p : Producer A) (ins outs : List A) (v : A)
        → Step
            (record { ring = r; producer = p; consumer = taken v; pushed = ins; popped = outs })
            (record {
              ring = release_slot r;
              producer = p;
              consumer = away;
              pushed = ins;
              popped = outs ++ (v ∷ []);
            })

  pub data Reachable : System A → Type 0 where
    at_start : Reachable start
    then_step : (s s' : System A) → Reachable s → Step s s' → Reachable s'
