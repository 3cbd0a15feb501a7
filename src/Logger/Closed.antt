-- ===== src/Logger/Closed.antt =====
-- A producer is freed only when all that its thread logged is written or reported.
use gamegine.Common.{
  ◌≤◌, ◌<◌, ◌^◌, [], ◌∷◌, ◌++◌, ◌≡◌, refl, sym, ap, ◌∙◌, arith, append_assoc, append-nil, subst,
}
use gamegine.SpscRing.Valid
use gamegine.SpscRing.Valid.{length-contents, fresh-IsValid}
use gamegine.Logger.Producer.{make, push, close, pop, take_dropped, blank, k_ring_bits}
use gamegine.Logger.Drained.{waiting, pop-waiting, pop-kept}
use gamegine.Logger.Closing.{
  popping, freed, Pair, begin, Step, accepts, refuses, closes, reads_phase, takes, finds_none,
  meets_limit, reports, Reachable, at_begin, then_step,
}
use gamegine.Logger.Knows.{
  Knows, push-accepted, push-refused, pop-some, pop-none, push-Knows, reads_phase-Knows,
  takes-Knows, finds_none-Knows, meets_limit-Knows, reports-Knows,
}

record Invariant (s : Pair) : Type 0 where
  ring : Valid.IsValid k_ring_bits s.producer.ring
  delivered : s.accepted ≡ s.written ++ waiting s.producer
  counted : s.producer.dropped ≡ s.refused
  told : s.producer.reported ≡ s.told
  behind : s.producer.reported ≤ s.producer.dropped
  knows : Knows s.producer s.stage

Step-Invariant : (s s' : Pair) → Step s s' → s'.refused < 2 ^ 64 → Invariant s → Invariant s'
unfolding close take_dropped
Step-Invariant _ _ (accepts s r live e) small i =
    let (v, w, dropped, reported) = push-accepted s.producer r i.ring e in
    record {
      ring = v;
      delivered =
          ap (λ l. l ++ (r ∷ [])) i.delivered
          ∙ append_assoc s.written (waiting s.producer) (r ∷ [])
          ∙ ap (λ l. s.written ++ l) (sym w);
      counted = dropped ∙ i.counted;
      told = reported ∙ i.told;
      behind = omega (arith, i.behind);
      knows = push-Knows s.producer (push s.producer r) s.stage live i.knows;
    }
Step-Invariant _ _ (refuses s r live e) small i =
    let (v, w, dropped, reported) = push-refused s.producer r i.ring e in
    record {
      ring = v;
      delivered = i.delivered ∙ ap (λ l. s.written ++ l) (sym w);
      counted = omega (arith, i.counted);
      told = reported ∙ i.told;
      behind = omega (arith, i.behind, i.counted);
      knows = push-Knows s.producer (push s.producer r) s.stage live i.knows;
    }
Step-Invariant _ _ (closes s live) small i = record {
  ring = i.ring;
  delivered = i.delivered;
  counted = i.counted;
  told = i.told;
  behind = i.behind;
  knows = push-Knows s.producer (close s.producer) s.stage live i.knows;
}
Step-Invariant _ _ (reads_phase s e) small i = record {
  ring = i.ring;
  delivered = i.delivered;
  counted = i.counted;
  told = i.told;
  behind = i.behind;
  knows = reads_phase-Knows s.producer s.producer.phase refl i.ring;
}
Step-Invariant _ _ (takes s phase count r at_loop below got) small i =
    let first = pop-some s.producer r (waiting s.producer) refl i.ring got in
    let (dropped, reported, _, _) = pop-kept s.producer in
    let sees : Knows s.producer (popping phase count) = subst (Knows s.producer) at_loop i.knows in
    record {
      ring = (pop-waiting s.producer (waiting s.producer) refl i.ring).1;
      delivered =
          i.delivered
          ∙ ap (λ l. s.written ++ l) first
          ∙ sym (append_assoc s.written (r ∷ []) (waiting (pop s.producer).1));
      counted = dropped ∙ i.counted;
      told = reported ∙ i.told;
      behind = omega (arith, i.behind, dropped, reported);
      knows = takes-Knows s.producer phase count r first sees;
    }
Step-Invariant _ _ (finds_none s phase count at_loop below got) small i =
    let (empty, left) = pop-none s.producer (waiting s.producer) refl i.ring got in
    let (dropped, reported, _, _) = pop-kept s.producer in
    let sees : Knows s.producer (popping phase count) = subst (Knows s.producer) at_loop i.knows in
    record {
      ring = (pop-waiting s.producer (waiting s.producer) refl i.ring).1;
      delivered = i.delivered ∙ ap (λ l. s.written ++ l) (empty ∙ sym left);
      counted = dropped ∙ i.counted;
      told = reported ∙ i.told;
      behind = omega (arith, i.behind, dropped, reported);
      knows = finds_none-Knows s.producer phase count left sees;
    }
Step-Invariant _ _ (meets_limit s phase count at_loop met) small i = record {
  ring = i.ring;
  delivered = i.delivered;
  counted = i.counted;
  told = i.told;
  behind = i.behind;
  knows = meets_limit-Knows s.producer phase count met (subst (Knows s.producer) at_loop i.knows);
}
Step-Invariant _ _ (reports s phase behind_loop) small i = record {
  ring = i.ring;
  delivered = i.delivered;
  counted = i.counted;
  told = omega (arith, i.told, i.counted, i.behind);
  behind = omega arith;
  knows = reports-Knows s.producer phase (subst (Knows s.producer) behind_loop i.knows);
}

Step-refused : (s s' : Pair) → Step s s' → s.refused ≤ s'.refused
Step-refused _ _ (accepts s r live e) = omega arith
Step-refused _ _ (refuses s r live e) = omega arith
Step-refused _ _ (closes s live) = omega arith
Step-refused _ _ (reads_phase s e) = omega arith
Step-refused _ _ (takes s phase count r at_loop below got) = omega arith
Step-refused _ _ (finds_none s phase count at_loop below got) = omega arith
Step-refused _ _ (meets_limit s phase count at_loop met) = omega arith
Step-refused _ _ (reports s phase behind_loop) = omega arith

Reachable-Invariant : (s : Pair) → Reachable s → s.refused < 2 ^ 64 → Invariant s
unfolding begin make
Reachable-Invariant _ (at_begin name) small =
    let (v, empty) = fresh-IsValid blank k_ring_bits (omega arith) in
    record {
      ring = v;
      delivered = sym empty;
      counted = refl;
      told = refl;
      behind = omega arith;
      knows = tt;
    }
Reachable-Invariant s' (then_step s _ r step) small =
    Step-Invariant s s' step small (Reachable-Invariant s r (omega (arith, Step-refused s s' step)))

-- However the pushes and the close of a thread interleave with the logger thread's load of the
-- phase, its pops and its reports, and as long as fewer than 2 ^ 64 pushes are refused, when the
-- producer is freed the records handed to `write_record` are the pushes that were accepted, in
-- order, and the losses reported add up to the pushes that were refused.
pub freed_complete :
    (s : Pair)
    → Reachable s
    → s.refused < 2 ^ 64
    → s.stage ≡ freed
    → (s.written ≡ s.accepted) × (s.told ≡ s.refused)
freed_complete s r small e =
    let i = Reachable-Invariant s r small in
    let (_, empty, told) : Knows s.producer freed = subst (Knows s.producer) e i.knows in
    (
      sym (i.delivered ∙ ap (λ l. s.written ++ l) empty ∙ append-nil s.written),
      sym i.told ∙ told ∙ i.counted,
    )
