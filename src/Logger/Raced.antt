-- ===== src/Logger/Raced.antt =====
-- What the threads know of each other at each step of a race, and what is left at the free.
use gamegine.Common.{
  ℕ, ◌+◌, ◌≤◌, [], ◌∷◌, ◌≡◌, refl, sym, ap, ◌∙◌, arith, length, length-append, subst,
}
use gamegine.LogRecord.{LogRecord}
use gamegine.SpscRing.Valid.{contents, length-contents}
use gamegine.SpscRing.Stages
use gamegine.SpscRing.Stages.{outside, Consumer, away}
use gamegine.SpscRing.Threads
use gamegine.SpscRing.Threads.{
  at_start, start, find_room, load_tail_room, load_tail_full, copy_in, publish, find_room_all,
  load_tail_room_all, load_tail_full_all, copy_in_all, publish_all, find_value, load_head_value,
  load_head_empty, copy_out, hand_back,
}
use gamegine.SpscRing.Delivery.{Reachable-Invariant, Reachable-delivers}
use gamegine.Logger.Producer.{Phase, blank, k_ring_bits}
use gamegine.Logger.Closing.{Stage, elsewhere, popping, popped, freed}
use gamegine.Logger.Racing.{
  Thread, running, missed, ended, Kind, pushes, misses, in_batch, pops, returns, finds_none,
  kind_of,
}

abbrev pub Lanes : Type 0
Lanes = Stages.System LogRecord

abbrev pub LaneStep : Lanes → Lanes → Type 0
LaneStep s s' = Threads.Step blank k_ring_bits s s'

-- What a step of the ring leaves, by its kind.
abbrev pub Effect : Kind → Lanes → Lanes → Type 0
Effect pushes s s' = s'.consumer ≡ s.consumer
Effect misses s s' = (s'.consumer ≡ s.consumer) × (s'.producer ≡ outside)
Effect in_batch s s' = Unit
Effect pops s s' =
    (s'.producer ≡ s.producer) × (s'.pushed ≡ s.pushed) × (length s'.popped ≡ length s.popped)
Effect returns s s' =
    (s'.producer ≡ s.producer)
    × (s'.pushed ≡ s.pushed)
    × (length s'.popped ≡ length s.popped + 1)
    × (s'.consumer ≡ away)
Effect finds_none s s' =
    (s'.producer ≡ s.producer)
    × (s'.pushed ≡ s.pushed)
    × (length s'.popped ≡ length s.popped)
    × (s'.consumer ≡ away)
    × (s'.ring.tail ≡ s'.ring.cached_head)

step-Effect : (s s' : Lanes) (step : LaneStep s s') → Effect (kind_of step) s s'
step-Effect _ _ (find_room r c ins outs v e) = refl
step-Effect _ _ (load_tail_room r c ins outs v t may e e') = refl
step-Effect _ _ (load_tail_full r c ins outs t may e e') = (refl, refl)
step-Effect _ _ (copy_in r c ins outs v) = refl
step-Effect _ _ (publish r c ins outs v) = refl
step-Effect _ _ (find_room_all r c ins outs values small fits) = tt
step-Effect _ _ (load_tail_room_all r c ins outs values t may small e fits) = tt
step-Effect _ _ (load_tail_full_all r c ins outs values t may small e e') = tt
step-Effect _ _ (copy_in_all r c ins outs done v todo) = tt
step-Effect _ _ (publish_all r c ins outs done) = tt
step-Effect _ _ (find_value r p ins outs e) = (refl, refl, refl)
step-Effect _ _ (load_head_value r p ins outs h may e e') = (refl, refl, refl)
step-Effect _ _ (load_head_empty r p ins outs h may e e') = (refl, refl, refl, refl, ground arith)
step-Effect _ _ (copy_out r p ins outs) = (refl, refl, refl)
step-Effect _ _ (hand_back r p ins outs v) = (refl, refl, length-append outs (v ∷ []), refl)

pub kind-Effect :
    (s s' : Lanes) (step : LaneStep s s') (kind : Kind) → kind_of step ≡ kind → Effect kind s s'
kind-Effect s s' step kind e = subst (λ k. Effect k s s') e (step-Effect s s' step)

-- How many records the ring holds.
abbrev pub held : Lanes → ℕ
held s = length (contents blank k_ring_bits s.ring)

abbrev pub Reached : Lanes → Type 0
Reached s = Threads.Reachable blank k_ring_bits s

pub held_adds :
    (s : Lanes) → Reached s → (length s.pushed ≡ length s.popped + held s) × (held s ≤ 4096)
held_adds s r =
    let (e, fits) = Reachable-delivers blank k_ring_bits s (omega arith) r in
    (ap length e ∙ length-append s.popped (contents blank k_ring_bits s.ring), fits)

-- A pop takes as many from the ring as it returns.
pub held_pops :
    (s s' : Lanes) (n : ℕ)
    → Reached s
    → Reached s'
    → s'.pushed ≡ s.pushed
    → length s'.popped ≡ length s.popped + n
    → held s ≡ n + held s'
held_pops s s' n r r' same fewer =
    omega (arith, (held_adds s r).0, (held_adds s' r').0, ap length same, fewer)

pub held_none : (s : Lanes) → Reached s → s.ring.tail ≡ s.ring.head → held s ≡ 0
held_none s r e =
    let i = Reachable-Invariant blank k_ring_bits s (omega arith) r in
    omega (arith, length-contents blank k_ring_bits s.ring, i.valid.tail_fits, e)

-- Whether a refused push is not counted yet.
abbrev pub uncounted : Thread → ℕ
uncounted missed = 1
uncounted _ = 0

-- A thread that ended is not in a push, and neither is one that is to count a drop.
abbrev pub Rests : Phase → Thread → Stages.Producer LogRecord → Type 0
Rests Phase.live running p = Unit
Rests Phase.live missed p = p ≡ outside
Rests Phase.live ended p = ⊥
Rests Phase.closed ended p = p ≡ outside
Rests Phase.closed running p = ⊥
Rests Phase.closed missed p = ⊥

-- What the logger thread knows: nothing of the thread while it read a live phase.
abbrev pub Knows : Phase → ℕ → Consumer LogRecord → ℕ → ℕ → Stage → Type 0
Knows phase n c reported dropped elsewhere = c ≡ away
Knows phase n c reported dropped (popping Phase.live count) = Unit
Knows phase n c reported dropped (popping Phase.closed count) =
    (phase ≡ Phase.closed) × (count + n ≤ 4096)
Knows phase n c reported dropped (popped Phase.live) = c ≡ away
Knows phase n c reported dropped (popped Phase.closed) =
    (c ≡ away) × (phase ≡ Phase.closed) × (n ≡ 0)
Knows phase n c reported dropped freed =
    (c ≡ away) × (phase ≡ Phase.closed) × (n ≡ 0) × (reported ≡ dropped)

pub running_live :
    (phase : Phase) (thread : Thread) (p : Stages.Producer LogRecord)
    → thread ≡ running
    → Rests phase thread p
    → phase ≡ Phase.live
running_live Phase.live thread p e rests = refl
running_live Phase.closed running p e rests = absurd rests
running_live Phase.closed missed p e rests = absurd rests
running_live Phase.closed ended p e rests = absurd (cc e)

pub missed_live :
    (phase : Phase) (thread : Thread) (p : Stages.Producer LogRecord)
    → thread ≡ missed
    → Rests phase thread p
    → phase ≡ Phase.live
missed_live Phase.live thread p e rests = refl
missed_live Phase.closed running p e rests = absurd rests
missed_live Phase.closed missed p e rests = absurd rests
missed_live Phase.closed ended p e rests = absurd (cc e)

pub running-Rests :
    (phase : Phase) (thread : Thread) (p : Stages.Producer LogRecord)
    → phase ≡ Phase.live
    → thread ≡ running
    → Rests phase thread p
running-Rests phase thread p live e = rw (live, e) tt

-- While the phase is live the logger thread knows nothing that a step of the thread changes.
pub live-Knows :
    (phase phase' : Phase) (n n' : ℕ) (c : Consumer LogRecord) (reported dropped dropped' : ℕ)
    (stage : Stage)
    → phase ≡ Phase.live
    → Knows phase n c reported dropped stage
    → Knows phase' n' c reported dropped' stage
live-Knows phase phase' n n' c reported dropped dropped' elsewhere live k = k
live-Knows phase phase' n n' c reported dropped dropped' (popping Phase.live count) live k = tt
live-Knows phase phase' n n' c reported dropped dropped' (popping Phase.closed count) live k =
    absurd (cc (sym live ∙ k.0))
live-Knows phase phase' n n' c reported dropped dropped' (popped Phase.live) live k = k
live-Knows phase phase' n n' c reported dropped dropped' (popped Phase.closed) live k =
    absurd (cc (sym live ∙ k.1))
live-Knows phase phase' n n' c reported dropped dropped' freed live k = absurd (cc (sym live ∙ k.1))
