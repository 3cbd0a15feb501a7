-- ===== src/Logger/Complete.antt =====
-- Every record logged is accounted for, and a handle never points to a producer that was freed.
use gamegine.Common.{
  ℕ, ◌+◌, ◌≤◌, ◌<◌, ◌^◌, Option, some, List, ◌∷◌, ◌++◌, ◌≡◌, refl, sym, ap, ◌∙◌, arith, Text, set,
}
use gamegine.Clock.{TickConversion}
use gamegine.LogRecord.{LogRecord}
use gamegine.Logger.Producer
use gamegine.Logger.Producer.{Phase, Producer, k_max_threads, register_current_thread}
use gamegine.Logger.Handle
use gamegine.Logger.Handle.{Handle, at_slot}
use gamegine.Logger.State.{Logger, start, push_locked}
use gamegine.Logger.System.{
  System, Step, registers, refused, moves, logs, logs_locked, closes, passes, Reachable, at_start,
  then_step,
}
use gamegine.Logger.Owners.{
  owners, owners-append, owner_live, live_at, live_at-set, live_at-push, live_at-free,
}
use gamegine.Logger.Account.{later-IsSound, make-IsSound, push-debts, set-debts}
use gamegine.Logger.Handles.{push-Found, push_works, destroy-live, destroy-debts}
use gamegine.Logger.Registered.{Claimed, registers-Claimed, refused-kept}
use gamegine.Logger.Accounted.{
  Accounted, pass-Passed, slots-Accounted, push_locked-Accounted, start-Accounted,
}

module _ (float_to_chars : ℕ → Text) (clock : TickConversion) where
  pub record Invariant (s : System) : Type 0 where
    pub accounted : Accounted float_to_chars clock s.logger s.logged
    pub owned : (i : ℕ) → owners s.handles i ≡ live_at s.logger.slots i

  registers-Invariant :
      (l : Logger) (hs : List Handle) (n thread i : ℕ) (name : Text)
      (slots : List (Option Producer))
      → Claimed l.slots name i slots
      → Invariant (record { logger = l; handles = hs; logged = n })
      → Invariant (record {
        logger = record l { slots = slots };
        handles = Handle.make thread i ∷ hs;
        logged = n;
      })
  unfolding Handle.make Producer.make
  registers-Invariant l hs n thread i name slots (free, e) v =
      let (s, z) = make-IsSound n name in
      let (sound, same) = set-debts n l.slots i (Producer.make name) free s z v.accounted.sound in
      rw e (record {
        accounted =
            slots-Accounted float_to_chars clock l n n (set l.slots i (some (Producer.make name)))
              v.accounted sound v.accounted.shared_sound (omega (arith, same));
        owned =
            λ j. omega (arith, v.owned j, live_at-set l.slots i j (Producer.make name) free refl);
      })

  Step-Invariant :
      (s s' : System)
      → Step float_to_chars clock s s'
      → s'.logged < 2 ^ 64
      → Invariant s
      → Invariant s'
  unfolding Handle.move push_locked
  Step-Invariant _ _ (registers l hs n thread i name slots e) small v =
      registers-Invariant l hs n thread i name slots (registers-Claimed l.slots name i slots e) v
  Step-Invariant _ _ (refused l hs n name err slots e) small v =
      rw (refused-kept l.slots name err slots e)
        (record { accounted = v.accounted; owned = v.owned })
  Step-Invariant _ _ (moves l before h after n) small v = record {
    accounted = v.accounted;
    owned = λ i. omega (
      arith,
      v.owned i,
      owners-append before (h ∷ after) i,
      owners-append before ((Handle.move h).0 ∷ (Handle.move h).1 ∷ after) i,
    );
  }
  Step-Invariant _ _ (logs l before h after n thread r slots e) small v =
      let f = push-Found thread h r l.slots slots e in
      let (sound, more) = push-debts n l.slots f.slot f.found r small f.holds v.accounted.sound in
      rw f.pushed (record {
        accounted =
            slots-Accounted float_to_chars clock l n (n + 1)
              (at_slot (λ q. Producer.push q r) l.slots f.slot) v.accounted sound
              (later-IsSound n l.shared v.accounted.shared_sound) (omega (arith, more));
        owned = λ i. v.owned i ∙ sym (live_at-push l.slots f.slot i r);
      })
  Step-Invariant _ _ (logs_locked l hs n r) small v = record {
    accounted = push_locked-Accounted float_to_chars clock l n r small v.accounted;
    owned = v.owned;
  }
  Step-Invariant _ _ (closes l before h after n) small v =
      let (sound, same) = destroy-debts n h l.slots v.accounted.sound in
      record {
        accounted =
            slots-Accounted float_to_chars clock l n n (Handle.destroy h l.slots) v.accounted sound
              v.accounted.shared_sound (omega (arith, same));
        owned = λ i. omega (
          arith,
          v.owned i,
          owners-append before (h ∷ after) i,
          owners-append before after i,
          destroy-live h l.slots i
              (λ j. omega (arith, v.owned j, owners-append before (h ∷ after) j)),
        );
      }
  Step-Invariant _ _ (passes l hs n ticks) small v =
      let p = pass-Passed float_to_chars clock l n ticks small v.accounted in
      record { accounted = p.accounted; owned = λ i. v.owned i ∙ sym (p.live i) }

  pub Step-logged : (s s' : System) → Step float_to_chars clock s s' → s.logged ≤ s'.logged
  Step-logged _ _ (registers l hs n thread i name slots e) = omega arith
  Step-logged _ _ (refused l hs n name err slots e) = omega arith
  Step-logged _ _ (moves l before h after n) = omega arith
  Step-logged _ _ (logs l before h after n thread r slots e) = omega arith
  Step-logged _ _ (logs_locked l hs n r) = omega arith
  Step-logged _ _ (closes l before h after n) = omega arith
  Step-logged _ _ (passes l hs n ticks) = omega arith

  pub Reachable-Invariant :
      (s : System) → Reachable float_to_chars clock s → s.logged < 2 ^ 64 → Invariant s
  unfolding start
  Reachable-Invariant _ (at_start answers works) small = record {
    accounted = start-Accounted float_to_chars clock answers works;
    owned = λ i. sym (live_at-free k_max_threads i);
  }
  Reachable-Invariant s' (then_step s _ r step) small =
      Step-Invariant s s' step small
        (Reachable-Invariant s r (omega (arith, Step-logged s s' step)))

  -- After any sequence of whole calls, of fewer than 2 ^ 64 records logged, over a file whose
  -- `write(2)` only takes characters or is interrupted, a slot that holds a live producer has
  -- exactly one handle that points to it, and every other slot has none.
  pub Reachable-owned :
      (s : System) (i : ℕ)
      → Reachable float_to_chars clock s
      → s.logged < 2 ^ 64
      → owners s.handles i ≡ live_at s.logger.slots i
  Reachable-owned s i r small = (Reachable-Invariant s r small).owned i

  -- After any sequence of whole calls, of fewer than 2 ^ 64 records logged, over a file whose
  -- `write(2)` only takes characters or is interrupted, a push by the thread of a handle that was
  -- not moved from fails no assertion, and pushes into the producer of the slot that the handle
  -- points to.
  pub push_safe :
      (s : System) (before : List Handle) (h : Handle) (after : List Handle) (i : ℕ) (r : LogRecord)
      → Reachable float_to_chars clock s
      → s.logged < 2 ^ 64
      → s.handles ≡ before ++ (h ∷ after)
      → h.producer ≡ some i
      → Handle.push h.owner h r s.logger.slots
        ≡ some (at_slot (λ q. Producer.push q r) s.logger.slots i)
  push_safe s before h after i r reached small e points =
      let owned = λ (j : ℕ). ap (λ hs. owners hs j) (sym e) ∙ Reachable-owned s j reached small in
      push_works h i r s.logger.slots points
        (owner_live before h after s.logger.slots i owned points)
