-- ===== src/Logger/Ledger.antt =====
-- No record goes missing unnoticed: what a push does to a producer's records and counts.
use gamegine.Common.{
  ℕ, suc, ◌+◌, ◌<◌, ◌^◌, true, false, inl, inr, Option, none, some, List, [], ◌∷◌, ◌++◌, ◌≡◌, ◌⊎◌,
  refl, ap, ◌∙◌, arith, Text, length, length-append, ◌==◌, Bool-cases, add64, set, get_elem?, take,
  All,
}
use gamegine.Error
use gamegine.Error.{Error, Kind, CoreReason, core_traits}
use gamegine.Error.Outcome.{value, unexpected}
use gamegine.LogRecord.{LogRecord}
use gamegine.SpscRing.Value.{try_push}
use gamegine.SpscRing.Valid
use gamegine.SpscRing.Valid.{length-contents}
use gamegine.SpscRing.Refine.{enqueue}
use gamegine.SpscRing.Calls.{try_push_lem}
use gamegine.Logger.Producer.{
  Producer, make, push, claim, register_current_thread, blank, k_ring_bits, k_max_threads,
}
use gamegine.Logger.Drained.{waiting}

-- A push that does what the bounded queue does, and counts what the queue refuses.
pub push-cases :
    (p : Producer) (r : LogRecord)
    → Valid.IsValid k_ring_bits p.ring
    → Valid.IsValid k_ring_bits (push p r).ring
      × ((((try_push k_ring_bits p.ring r).0 ≡ true)
            × (waiting (push p r) ≡ waiting p ++ (r ∷ []))
            × ((push p r).dropped ≡ p.dropped))
          ⊎ (((try_push k_ring_bits p.ring r).0 ≡ false)
              × (length (waiting p) ≡ 4096)
              × (waiting (push p r) ≡ waiting p)
              × ((push p r).dropped ≡ add64 p.dropped 1)))
unfolding push enqueue
push-cases p r v =
    let t = try_push_lem blank k_ring_bits p.ring r v in
    elim (Bool-cases (length (waiting p) == 4096)) [
      | inl full ↦
          let refused : (try_push k_ring_bits p.ring r).0 ≡ false = t.answer ∙ rw full refl in
          rw refused (t.left.valid, inr (refl, ground arith, t.left.holds ∙ rw full refl, refl))
      | inr space ↦
          let done : (try_push k_ring_bits p.ring r).0 ≡ true = t.answer ∙ rw space refl in
          rw done (t.left.valid, inl (refl, t.left.holds ∙ rw space refl, refl))
    ]

-- On a valid ring, and with the count of drops below its 64 bits, every push of a record makes the
-- records waiting and the records counted as dropped one more together.
push-counts :
    (p : Producer) (r : LogRecord)
    → Valid.IsValid k_ring_bits p.ring
    → p.dropped + 1 < 2 ^ 64
    → length (waiting (push p r)) + (push p r).dropped ≡ length (waiting p) + p.dropped + 1
push-counts p r v h = elim (push-cases p r v).1 [
  | inl (_, w, d) ↦ omega (arith, ap length w, length-append (waiting p) (r ∷ []), d)
  | inr (_, _, w, d) ↦ omega (arith, ap length w, d)
]

abbrev pub IsTaken : Option Producer → Type 0
IsTaken none = ⊥
IsTaken (some p) = Unit

-- What registration does to the slots, and what it returns.
abbrev pub Registered : List (Option Producer) → Text → Type 0
Registered slots name =
    (All IsTaken slots
      × (register_current_thread slots name ≡ (
        unexpected (Error.make Kind.exhausted CoreReason.log_too_many_threads k_max_threads),
        slots,
      )))
    ⊎ ((i : ℕ) × All IsTaken (take i slots)
        × (get_elem? slots i ≡ some none)
        × (register_current_thread slots name ≡ (value i, set slots i (some (make name)))))

claim-cases :
    (slots : List (Option Producer)) (p : Producer)
    → (All IsTaken slots × (claim slots p ≡ (none, slots)))
      ⊎ ((i : ℕ) × All IsTaken (take i slots)
          × (get_elem? slots i ≡ some none)
          × (claim slots p ≡ (some i, set slots i (some p))))
unfolding claim
claim-cases [] p = inl (tt, refl)
claim-cases (none ∷ slots) p = inr (0, tt, refl, refl)
claim-cases (some q ∷ slots) p = elim (claim-cases slots p) [
  | inl (all, e) ↦ inl ((tt, all), rw e refl)
  | inr (i, all, free, e) ↦ inr (suc i, (tt, all), free, rw e refl)
]

-- Registration takes the first free slot for a new producer and changes no other slot; when every
-- slot is taken it changes none, and fails with the number of threads as the error's context.
pub register_current_thread_lem :
    (slots : List (Option Producer)) (name : Text) → Registered slots name
unfolding register_current_thread
register_current_thread_lem slots name = elim (claim-cases slots (make name)) [
  | inl (all, e) ↦ inl (all, rw e refl)
  | inr (i, all, free, e) ↦ inr (i, all, free, rw e refl)
]
