-- ===== src/Logger/Knows.antt =====
-- What the logger thread knows of a closed producer, after each step of either thread.
use gamegine.Common.{
  ℕ, ◌+◌, ◌≤◌, true, false, inl, inr, none, some, List, [], ◌∷◌, ◌++◌, ◌≡◌, refl, sym, ap, ◌∙◌,
  arith, length, Bool-cases, ◌==◌, add64,
}
use gamegine.LogRecord.{LogRecord}
use gamegine.SpscRing.Value.{try_push}
use gamegine.SpscRing.Valid
use gamegine.SpscRing.Valid.{length-contents, fresh-IsValid}
use gamegine.SpscRing.Refine.{enqueue, dequeue}
use gamegine.SpscRing.Calls.{try_push_lem}
use gamegine.Logger.Producer.{Phase, Producer, push, pop, take_dropped, blank, k_ring_bits}
use gamegine.Logger.Drain.{limit}
use gamegine.Logger.Drained.{waiting, pop-waiting, pop-kept}
use gamegine.Logger.Closing.{Stage, elsewhere, popping, popped, freed, after}

-- What the logger thread knows of the producer: nothing while it read a live phase.
abbrev pub Knows : Producer → Stage → Type 0
Knows p elsewhere = Unit
Knows p (popping Phase.live count) = Unit
Knows p (popping Phase.closed count) =
    (p.phase ≡ Phase.closed) × (count + length (waiting p) ≤ 4096)
Knows p (popped Phase.live) = Unit
Knows p (popped Phase.closed) = (p.phase ≡ Phase.closed) × (waiting p ≡ [])
Knows p freed = (p.phase ≡ Phase.closed) × (waiting p ≡ []) × (p.reported ≡ p.dropped)

-- A push that is taken, and one that is refused.
pub push-accepted :
    (p : Producer) (r : LogRecord)
    → Valid.IsValid k_ring_bits p.ring
    → (try_push k_ring_bits p.ring r).0 ≡ true
    → Valid.IsValid k_ring_bits (push p r).ring
      × (waiting (push p r) ≡ waiting p ++ (r ∷ []))
      × ((push p r).dropped ≡ p.dropped)
      × ((push p r).reported ≡ p.reported)
unfolding push enqueue
push-accepted p r v e =
    let t = try_push_lem blank k_ring_bits p.ring r v in
    elim (Bool-cases (length (waiting p) == 4096)) [
      | inl full ↦
          let refused : (try_push k_ring_bits p.ring r).0 ≡ false = t.answer ∙ rw full refl in
          absurd (cc (e, refused))
      | inr space ↦ rw e (t.left.valid, t.left.holds ∙ rw space refl, refl, refl)
    ]

pub push-refused :
    (p : Producer) (r : LogRecord)
    → Valid.IsValid k_ring_bits p.ring
    → (try_push k_ring_bits p.ring r).0 ≡ false
    → Valid.IsValid k_ring_bits (push p r).ring
      × (waiting (push p r) ≡ waiting p)
      × ((push p r).dropped ≡ add64 p.dropped 1)
      × ((push p r).reported ≡ p.reported)
unfolding push enqueue
push-refused p r v e =
    let t = try_push_lem blank k_ring_bits p.ring r v in
    elim (Bool-cases (length (waiting p) == 4096)) [
      | inl full ↦ rw e (t.left.valid, t.left.holds ∙ rw full refl, refl, refl)
      | inr space ↦
          let done : (try_push k_ring_bits p.ring r).0 ≡ true = t.answer ∙ rw space refl in
          absurd (cc (e, done))
    ]

pub pop-some :
    (p : Producer) (r : LogRecord) (w : List LogRecord)
    → waiting p ≡ w
    → Valid.IsValid k_ring_bits p.ring
    → (pop p).0 ≡ some r
    → waiting p ≡ r ∷ waiting (pop p).1
unfolding dequeue
pop-some p r [] e v got = let nothing = (pop-waiting p [] e v).0 in absurd (cc (sym got ∙ nothing))
pop-some p r (x ∷ w) e v got =
    let (first, _, left) = pop-waiting p (x ∷ w) e v in
    let same : x ≡ r = cc (sym first ∙ got) in e ∙ ap (λ y. y ∷ w) same ∙ ap (λ l. r ∷ l) (sym left)

pub pop-none :
    (p : Producer) (w : List LogRecord)
    → waiting p ≡ w
    → Valid.IsValid k_ring_bits p.ring
    → (pop p).0 ≡ none
    → (waiting p ≡ []) × (waiting (pop p).1 ≡ [])
unfolding dequeue
pop-none p [] e v got = (e, (pop-waiting p [] e v).2)
pop-none p (x ∷ w) e v got =
    let first = (pop-waiting p (x ∷ w) e v).0 in absurd (cc (sym got ∙ first))

-- What the logger thread knows, after each step.
pub push-Knows :
    (p q : Producer) (stage : Stage) → p.phase ≡ Phase.live → Knows p stage → Knows q stage
push-Knows p q elsewhere live k = tt
push-Knows p q (popping Phase.live count) live k = tt
push-Knows p q (popping Phase.closed count) live k = absurd (cc (sym live ∙ k.0))
push-Knows p q (popped Phase.live) live k = tt
push-Knows p q (popped Phase.closed) live k = absurd (cc (sym live ∙ k.0))
push-Knows p q freed live k = absurd (cc (sym live ∙ k.0))

pub reads_phase-Knows :
    (p : Producer) (phase : Phase)
    → p.phase ≡ phase
    → Valid.IsValid k_ring_bits p.ring
    → Knows p (popping phase 0)
reads_phase-Knows p Phase.live e v = tt
reads_phase-Knows p Phase.closed e v =
    (e, omega (arith, length-contents blank k_ring_bits p.ring, v.held))

pub takes-Knows :
    (p : Producer) (phase : Phase) (count : ℕ) (r : LogRecord)
    → waiting p ≡ r ∷ waiting (pop p).1
    → Knows p (popping phase count)
    → Knows (pop p).1 (popping phase (count + 1))
takes-Knows p Phase.live count r e k = tt
takes-Knows p Phase.closed count r e k = ((pop-kept p).3 ∙ k.0, omega (arith, k.1, ap length e))

pub finds_none-Knows :
    (p : Producer) (phase : Phase) (count : ℕ)
    → waiting (pop p).1 ≡ []
    → Knows p (popping phase count)
    → Knows (pop p).1 (popped phase)
finds_none-Knows p Phase.live count e k = tt
finds_none-Knows p Phase.closed count e k = ((pop-kept p).3 ∙ k.0, e)

-- A closed ring runs empty before so many records are taken.
pub meets_limit-Knows :
    (p : Producer) (phase : Phase) (count : ℕ)
    → count ≡ limit phase
    → Knows p (popping phase count)
    → Knows p (popped phase)
meets_limit-Knows p Phase.live count e k = tt
meets_limit-Knows p Phase.closed count e k = absurd (omega (arith, k.1))

pub reports-Knows :
    (p : Producer) (phase : Phase) → Knows p (popped phase) → Knows (take_dropped p).1 (after phase)
unfolding take_dropped
reports-Knows p Phase.live k = tt
reports-Knows p Phase.closed k = (k.0, k.1, refl)
