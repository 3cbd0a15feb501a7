-- ===== src/Logger/Freed.antt =====
-- Whatever single steps come between, a producer is freed last, and by then all is told.
use gamegine.Common.{ℕ, ◌+◌, ◌≤◌, ◌<◌, ◌^◌, ◌≡◌, ◌∙◌, refl, sym, ap, arith, subst}
use gamegine.SpscRing.Stages.{away}
use gamegine.SpscRing.Threads
use gamegine.SpscRing.Threads.{start}
use gamegine.Logger.Producer.{Phase}
use gamegine.Logger.Drain.{limit}
use gamegine.Logger.Closing.{Stage, popping, popped, after}
use gamegine.Logger.Racing.{
  pushes, misses, pops, returns, finds_none, Race, begin, Step, thread_steps, is_refused,
  counts_drop, closes, reads_phase, logger_steps, pops_record, pops_none, meets_limit, reports,
  Reachable, at_begin, then_step,
}
use gamegine.Logger.Raced.{
  Lanes, kind-Effect, held, Reached, held_adds, held_pops, held_none, uncounted, Rests, Knows,
  running_live, missed_live, running-Rests, live-Knows,
}

pub record Invariant (s : Race) : Type 0 where
  pub reached : Reached s.ring
  pub counted : uncounted s.thread + s.dropped ≡ s.refused
  pub told : s.reported ≡ s.told
  pub behind : s.reported ≤ s.dropped
  pub rests : Rests s.phase s.thread s.ring.producer
  pub knows : Knows s.phase (held s.ring) s.ring.consumer s.reported s.dropped s.stage

-- A step of the logger thread in its loop.
loop-Invariant :
    (s : Race) (ring : Lanes) (stage : Stage)
    → Reached ring
    → ring.producer ≡ s.ring.producer
    → Invariant s
    → Knows s.phase (held ring) ring.consumer s.reported s.dropped stage
    → Invariant (record s { ring = ring; stage = stage })
loop-Invariant s ring stage reached same i knows = record {
  reached = reached;
  counted = i.counted;
  told = i.told;
  behind = i.behind;
  rests = subst (Rests s.phase s.thread) (sym same) i.rests;
  knows = knows;
}

pops-Knows :
    (s : Race) (ring : Lanes) (phase : Phase) (count : ℕ)
    → held s.ring ≡ held ring
    → Knows s.phase (held s.ring) s.ring.consumer s.reported s.dropped (popping phase count)
    → Knows s.phase (held ring) ring.consumer s.reported s.dropped (popping phase count)
pops-Knows s ring Phase.live count same k = tt
pops-Knows s ring Phase.closed count same k = (k.0, omega (arith, k.1))

returns-Knows :
    (s : Race) (ring : Lanes) (phase : Phase) (count : ℕ)
    → held s.ring ≡ 1 + held ring
    → Knows s.phase (held s.ring) s.ring.consumer s.reported s.dropped (popping phase count)
    → Knows s.phase (held ring) ring.consumer s.reported s.dropped (popping phase (count + 1))
returns-Knows s ring Phase.live count same k = tt
returns-Knows s ring Phase.closed count same k = (k.0, omega (arith, k.1))

finds_none-Knows :
    (s : Race) (ring : Lanes) (phase : Phase) (count : ℕ)
    → ring.consumer ≡ away
    → (phase ≡ Phase.closed → held ring ≡ 0)
    → Knows s.phase (held s.ring) s.ring.consumer s.reported s.dropped (popping phase count)
    → Knows s.phase (held ring) ring.consumer s.reported s.dropped (popped phase)
finds_none-Knows s ring Phase.live count back empty k = back
finds_none-Knows s ring Phase.closed count back empty k = (back, k.0, empty refl)

reads_phase-Knows :
    (s : Race) (seen : Phase)
    → (seen ≡ Phase.closed → s.phase ≡ Phase.closed)
    → held s.ring ≤ 4096
    → Knows s.phase (held s.ring) s.ring.consumer s.reported s.dropped (popping seen 0)
reads_phase-Knows s Phase.live stored fits = tt
reads_phase-Knows s Phase.closed stored fits = (stored refl, omega arith)

-- A closed ring runs empty before so many records are taken.
meets_limit-Knows :
    (s : Race) (phase : Phase) (count : ℕ)
    → s.ring.consumer ≡ away
    → count ≡ limit phase
    → Knows s.phase (held s.ring) s.ring.consumer s.reported s.dropped (popping phase count)
    → Knows s.phase (held s.ring) s.ring.consumer s.reported s.dropped (popped phase)
meets_limit-Knows s Phase.live count back met k = back
meets_limit-Knows s Phase.closed count back met k = absurd (omega (arith, k.1))

reports-Knows :
    (s : Race) (phase : Phase) (seen : ℕ)
    → (phase ≡ Phase.closed → seen ≡ s.dropped)
    → Knows s.phase (held s.ring) s.ring.consumer s.reported s.dropped (popped phase)
    → Knows s.phase (held s.ring) s.ring.consumer seen s.dropped (after phase)
reports-Knows s Phase.live seen last k = k
reports-Knows s Phase.closed seen last k = (k.0, k.1, k.2, last refl)

Step-Invariant : (s s' : Race) → Step s s' → s'.refused < 2 ^ 64 → Invariant s → Invariant s'
Step-Invariant _ _ (thread_steps s ring step runs kind) small i =
    let same = kind-Effect s.ring ring step pushes kind in
    let live = running_live s.phase s.thread s.ring.producer runs i.rests in
    let knows =
      live-Knows s.phase s.phase (held s.ring) (held ring) s.ring.consumer s.reported s.dropped
        s.dropped s.stage live i.knows in
    record {
      reached = Threads.then_step s.ring ring i.reached step;
      counted = i.counted;
      told = i.told;
      behind = i.behind;
      rests = running-Rests s.phase s.thread ring.producer live runs;
      knows = rw same knows;
    }
Step-Invariant _ _ (is_refused s ring step runs kind) small i =
    let (same, back) = kind-Effect s.ring ring step misses kind in
    let live = running_live s.phase s.thread s.ring.producer runs i.rests in
    let none_missed : uncounted s.thread ≡ 0 = ap uncounted runs in
    let knows =
      live-Knows s.phase s.phase (held s.ring) (held ring) s.ring.consumer s.reported s.dropped
        s.dropped s.stage live i.knows in
    record {
      reached = Threads.then_step s.ring ring i.reached step;
      counted = omega (arith, i.counted);
      told = i.told;
      behind = i.behind;
      rests = rw live back;
      knows = rw same knows;
    }
Step-Invariant _ _ (counts_drop s misses_one) small i =
    let live = missed_live s.phase s.thread s.ring.producer misses_one i.rests in
    let one_missed : uncounted s.thread ≡ 1 = ap uncounted misses_one in
    record {
      reached = i.reached;
      counted = omega (arith, i.counted);
      told = i.told;
      behind = omega (arith, i.behind, i.counted);
      rests = rw live tt;
      knows =
          live-Knows s.phase s.phase (held s.ring) (held s.ring) s.ring.consumer s.reported
            s.dropped _ s.stage live i.knows;
    }
Step-Invariant _ _ (closes s runs back) small i =
    let live = running_live s.phase s.thread s.ring.producer runs i.rests in
    let none_missed : uncounted s.thread ≡ 0 = ap uncounted runs in
    record {
      reached = i.reached;
      counted = omega (arith, i.counted);
      told = i.told;
      behind = i.behind;
      rests = back;
      knows =
          live-Knows s.phase Phase.closed (held s.ring) (held s.ring) s.ring.consumer s.reported
            s.dropped s.dropped s.stage live i.knows;
    }
Step-Invariant _ _ (reads_phase s seen at_stage stored) small i =
    loop-Invariant s s.ring (popping seen 0) i.reached refl i
      (reads_phase-Knows s seen stored (held_adds s.ring i.reached).1)
Step-Invariant _ _ (logger_steps s ring step phase count at_loop below kind) small i =
    let (producer, pushed, taken) = kind-Effect s.ring ring step pops kind in
    let reached = Threads.then_step s.ring ring i.reached step in
    let same = held_pops s.ring ring 0 i.reached reached pushed (omega arith) in
    let k =
      subst (Knows s.phase (held s.ring) s.ring.consumer s.reported s.dropped) at_loop i.knows in
    loop-Invariant s ring s.stage reached producer i (
      subst (Knows s.phase (held ring) ring.consumer s.reported s.dropped) (sym at_loop)
        (pops-Knows s ring phase count (omega arith) k))
Step-Invariant _ _ (pops_record s ring step phase count at_loop below kind) small i =
    let (producer, pushed, taken, back) = kind-Effect s.ring ring step returns kind in
    let reached = Threads.then_step s.ring ring i.reached step in
    let k =
      subst (Knows s.phase (held s.ring) s.ring.consumer s.reported s.dropped) at_loop i.knows in
    loop-Invariant s ring (popping phase (count + 1)) reached producer i
      (returns-Knows s ring phase count (held_pops s.ring ring 1 i.reached reached pushed taken) k)
Step-Invariant _ _ (pops_none s ring step phase count at_loop below kind last) small i =
    let (producer, pushed, taken, back, empty) = kind-Effect s.ring ring step finds_none kind in
    let reached = Threads.then_step s.ring ring i.reached step in
    let k =
      subst (Knows s.phase (held s.ring) s.ring.consumer s.reported s.dropped) at_loop i.knows in
    loop-Invariant s ring (popped phase) reached producer i
      (finds_none-Knows s ring phase count back (λ e. held_none ring reached (empty ∙ last e)) k)
Step-Invariant _ _ (meets_limit s phase count at_loop back met) small i =
    let k =
      subst (Knows s.phase (held s.ring) s.ring.consumer s.reported s.dropped) at_loop i.knows in
    loop-Invariant s s.ring (popped phase) i.reached refl i
      (meets_limit-Knows s phase count back met k)
Step-Invariant _ _ (reports s phase seen behind_loop later earlier last) small i =
    let k =
      subst (Knows s.phase (held s.ring) s.ring.consumer s.reported s.dropped) behind_loop
        i.knows in
    record {
      reached = i.reached;
      counted = i.counted;
      told = omega (arith, i.told, i.counted);
      behind = earlier;
      rests = i.rests;
      knows = reports-Knows s phase seen last k;
    }

Step-refused : (s s' : Race) → Step s s' → s.refused ≤ s'.refused
Step-refused _ _ (thread_steps s ring step runs kind) = omega arith
Step-refused _ _ (is_refused s ring step runs kind) = omega arith
Step-refused _ _ (counts_drop s misses_one) = omega arith
Step-refused _ _ (closes s runs back) = omega arith
Step-refused _ _ (reads_phase s seen at_stage stored) = omega arith
Step-refused _ _ (logger_steps s ring step phase count at_loop below kind) = omega arith
Step-refused _ _ (pops_record s ring step phase count at_loop below kind) = omega arith
Step-refused _ _ (pops_none s ring step phase count at_loop below kind last) = omega arith
Step-refused _ _ (meets_limit s phase count at_loop back met) = omega arith
Step-refused _ _ (reports s phase seen behind_loop later earlier last) = omega arith

pub Reachable-Invariant : (s : Race) → Reachable s → s.refused < 2 ^ 64 → Invariant s
unfolding begin start
Reachable-Invariant _ at_begin small = record {
  reached = Threads.at_start;
  counted = refl;
  told = refl;
  behind = omega arith;
  rests = tt;
  knows = refl;
}
Reachable-Invariant s' (then_step s _ r step) small =
    Step-Invariant s s' step small (Reachable-Invariant s r (omega (arith, Step-refused s s' step)))
