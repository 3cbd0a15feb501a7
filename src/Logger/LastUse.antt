-- ===== src/Logger/LastUse.antt =====
-- The free of a producer is the last that either thread does with it, and leaves nothing untold.
use gamegine.Common.{length_zero, ◌<◌, ◌^◌, ◌++◌, ◌≡◌, refl, sym, ap, ◌∙◌, arith, append-nil, subst}
use gamegine.LogRecord.{LogRecord}
use gamegine.SpscRing.Valid.{contents}
use gamegine.SpscRing.Stages
use gamegine.SpscRing.Delivery.{Reachable-delivers}
use gamegine.Logger.Producer.{Phase, blank, k_ring_bits}
use gamegine.Logger.Closing.{freed}
use gamegine.Logger.Racing.{
  Thread, running, missed, ended, Race, Step, thread_steps, is_refused, counts_drop, closes,
  reads_phase, logger_steps, pops_record, pops_none, meets_limit, reports, Reachable,
}
use gamegine.Logger.Raced.{held, uncounted, Rests, Knows}
use gamegine.Logger.Freed.{Invariant, Reachable-Invariant}

over_when_shut :
    (phase : Phase) (thread : Thread) (p : Stages.Producer LogRecord)
    → phase ≡ Phase.closed
    → Rests phase thread p
    → thread ≡ ended
over_when_shut Phase.live thread p e rests = absurd (cc e)
over_when_shut Phase.closed running p e rests = absurd rests
over_when_shut Phase.closed missed p e rests = absurd rests
over_when_shut Phase.closed ended p e rests = refl

at_free :
    (s : Race)
    → Invariant s
    → s.stage ≡ freed
    → (held s.ring ≡ 0) × (s.reported ≡ s.dropped) × (s.thread ≡ ended)
at_free s i e =
    let (back, closed, empty, all) : Knows s.phase (held s.ring) s.ring.consumer s.reported
        s.dropped freed =
      subst (Knows s.phase (held s.ring) s.ring.consumer s.reported s.dropped) e i.knows in
    (empty, all, over_when_shut s.phase s.thread s.ring.producer closed i.rests)

-- However the atomic steps of a thread that pushes records one by one and then closes its producer
-- interleave with those of the logger thread, however late the loads of each are, but that behind
-- the load of a closed phase all that the thread stored is read, and as long as fewer than 2 ^ 64
-- pushes are refused: when the producer is freed, the records popped from its ring are the records
-- pushed into it, in order, and the losses reported add up to the pushes that were refused.
pub freed_told :
    (s : Race)
    → Reachable s
    → s.refused < 2 ^ 64
    → s.stage ≡ freed
    → (s.ring.popped ≡ s.ring.pushed) × (s.told ≡ s.refused)
freed_told s r small e =
    let i = Reachable-Invariant s r small in
    let (empty, all, over) = at_free s i e in
    let none_missed : uncounted s.thread ≡ 0 = ap uncounted over in
    let none_left = length_zero (contents blank k_ring_bits s.ring.ring) empty in
    let delivered = (Reachable-delivers blank k_ring_bits s.ring (omega arith) i.reached).0 in
    (
      sym (delivered ∙ ap (λ l. s.ring.popped ++ l) none_left ∙ append-nil s.ring.popped),
      omega (arith, i.told, i.counted),
    )

stops : (s s' : Race) → s.stage ≡ freed → s.thread ≡ ended → ¬ Step s s'
stops _ _ e over (thread_steps s ring step runs kind) = cc (sym over ∙ runs)
stops _ _ e over (is_refused s ring step runs kind) = cc (sym over ∙ runs)
stops _ _ e over (counts_drop s misses_one) = cc (sym over ∙ misses_one)
stops _ _ e over (closes s runs back) = cc (sym over ∙ runs)
stops _ _ e over (reads_phase s seen at_stage stored) = cc (sym e ∙ at_stage)
stops _ _ e over (logger_steps s ring step phase count at_loop below kind) = cc (sym e ∙ at_loop)
stops _ _ e over (pops_record s ring step phase count at_loop below kind) = cc (sym e ∙ at_loop)
stops _ _ e over (pops_none s ring step phase count at_loop below kind last) = cc (sym e ∙ at_loop)
stops _ _ e over (meets_limit s phase count at_loop back met) = cc (sym e ∙ at_loop)
stops _ _ e over (reports s phase seen behind_loop later earlier last) = cc (sym e ∙ behind_loop)

-- However the atomic steps of a thread that pushes records one by one and then closes its producer
-- interleave with those of the logger thread, however late the loads of each are, but that behind
-- the load of a closed phase all that the thread stored is read, and as long as fewer than 2 ^ 64
-- pushes are refused: once the producer is freed neither thread makes another step on it.
pub freed_last : (s s' : Race) → Reachable s → s.refused < 2 ^ 64 → s.stage ≡ freed → ¬ Step s s'
freed_last s s' r small e = stops s s' e (at_free s (Reachable-Invariant s r small) e).2
