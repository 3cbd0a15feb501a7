-- ===== src/Logger/Outcomes.antt =====
-- What becomes of the calls that may fail: the destructor, by the handles that are left, and a
-- registration, by how many there are.
use gamegine.Common.{
  ℕ, zero, suc, ◌+◌, ◌≤◌, ◌<◌, ◌^◌, false, inl, inr, Option, none, some, List, [], ◌∷◌, ◌++◌, ◌≡◌,
  refl, sym, ap, ◌∙◌, arith, Text, All, all, length, get_elem?, set, ◌==◌, Bool-cases,
}
use gamegine.Clock.{TickConversion}
use gamegine.Error.Outcome.{value}
use gamegine.Logger.Producer
use gamegine.Logger.Producer.{Phase, Producer, k_max_threads, register_current_thread}
use gamegine.Logger.Handle.{Handle}
use gamegine.Logger.Ledger.{IsTaken, register_current_thread_lem}
use gamegine.Logger.State.{is_free, pass, destroy}
use gamegine.Logger.System.{System, Reachable, then_step, passes}
use gamegine.Logger.Slots.{set_free}
use gamegine.Logger.Sized.{Reachable-length}
use gamegine.Logger.Owners.{points_to, owners, liveness, owner_live, live_at}
use gamegine.Logger.Passes.{IsOpen}
use gamegine.Logger.Accounted.{pass-Passed}
use gamegine.Logger.Complete.{Reachable-Invariant}

live_not_free :
    (slots : List (Option Producer)) (i : ℕ) → live_at slots i ≡ 1 → all is_free slots ≡ false
live_not_free [] i e = absurd (omega arith)
live_not_free (none ∷ slots) zero e = absurd (omega arith)
live_not_free (some p ∷ slots) i e = refl
live_not_free (none ∷ slots) (suc i) e = live_not_free slots i e

-- How many of the slots from here on have handles that point to them.
abbrev pointed : List Handle → ℕ → ℕ → ℕ
pointed hs i zero = 0
pointed hs i (suc n) = owners hs i + pointed hs (suc i) n

pointed_none : (i n : ℕ) → pointed [] i n ≡ 0
pointed_none i zero = refl
pointed_none i (suc n) = omega (arith, pointed_none (suc i) n)

-- How many of the slots from here on one handle points to.
abbrev hits : Option ℕ → ℕ → ℕ → ℕ
hits producer i zero = 0
hits producer i (suc n) = points_to producer i + hits producer (suc i) n

hits_past : (j i n : ℕ) → j < i → hits (some j) i n ≡ 0
hits_past j i zero h = refl
hits_past j i (suc n) h =
    let miss : points_to (some j) i ≡ 0 = ground arith in
    omega (arith, hits_past j (suc i) n (omega arith))

hits_max : (producer : Option ℕ) (i n : ℕ) → hits producer i n ≤ 1
hits_max none i zero = omega arith
hits_max none i (suc n) = omega (arith, hits_max none (suc i) n)
hits_max (some j) i zero = omega arith
hits_max (some j) i (suc n) = elim (Bool-cases (j == i)) [
  | inl e ↦
      let one : points_to (some j) i ≡ 1 = ground arith in
      omega (arith, hits_past j (suc i) n (ground arith))
  | inr e ↦
      let miss : points_to (some j) i ≡ 0 = ground arith in
      omega (arith, hits_max (some j) (suc i) n)
]

pointed-cons :
    (h : Handle) (hs : List Handle) (i n : ℕ)
    → pointed (h ∷ hs) i n ≡ hits h.producer i n + pointed hs i n
pointed-cons h hs i zero = omega arith
pointed-cons h hs i (suc n) = omega (arith, pointed-cons h hs (suc i) n)

-- Each handle points to one slot at most.
pointed_max : (hs : List Handle) (i n : ℕ) → pointed hs i n ≤ length hs
pointed_max [] i n = omega (arith, pointed_none i n)
pointed_max (h ∷ hs) i n =
    omega (arith, pointed-cons h hs i n, hits_max h.producer i n, pointed_max hs i n)

-- Slots that all hold live producers have as many handles.
pointed_full :
    (slots : List (Option Producer)) (hs : List Handle) (i : ℕ)
    → All IsOpen slots
    → All IsTaken slots
    → ((j : ℕ) → owners hs (i + j) ≡ live_at slots j)
    → pointed hs i (length slots) ≡ length slots
pointed_full [] hs i open_slots taken owned = refl
pointed_full (none ∷ slots) hs i open_slots (t, taken) owned = absurd t
pointed_full (some p ∷ slots) hs i (o, open_slots) (t, taken) owned =
    let first : owners hs i ≡ 1 =
      (let at = owned 0 in let here : i + 0 ≡ i = omega arith in (rw here at at) ∙ ap liveness o) in
    let shifted : (j : ℕ) → owners hs (suc i + j) ≡ live_at slots j = λ j.
      (let here : i + suc j ≡ suc i + j = omega arith in let at = owned (suc j) in rw here at at) in
    omega (arith, pointed_full slots hs (suc i) open_slots taken shifted)

module _ (float_to_chars : ℕ → Text) (clock : TickConversion) where
  -- After any sequence of whole calls, of fewer than 2 ^ 64 records logged, over a file whose
  -- `write(2)` only takes characters or is interrupted, and while a handle that was not moved from
  -- is left, the assertion of the destructor fails.
  pub destroy_asserts :
      (s : System) (ticks : ℕ → ℕ) (before : List Handle) (h : Handle) (after : List Handle) (i : ℕ)
      → Reachable float_to_chars clock s
      → s.logged < 2 ^ 64
      → s.handles ≡ before ++ (h ∷ after)
      → h.producer ≡ some i
      → destroy float_to_chars clock ticks s.logger ≡ none
  unfolding destroy
  destroy_asserts s ticks before h after i reached small e points =
      let v = Reachable-Invariant float_to_chars clock s reached small in
      let p = pass-Passed float_to_chars clock s.logger s.logged ticks small v.accounted in
      let owned = λ (j : ℕ). ap (λ hs. owners hs j) (sym e) ∙ v.owned j ∙ sym (p.live j) in
      let slots = (pass float_to_chars clock ticks s.logger).1.slots in
      let asserted = live_not_free slots i (owner_live before h after slots i owned points) in
      rw asserted refl

  -- After any sequence of whole calls, of fewer than 2 ^ 64 records logged, over a file whose
  -- `write(2)` only takes characters or is interrupted, and while fewer handles are left than there
  -- are slots, a registration behind one pass of the logger thread succeeds, and puts a new
  -- producer of that name into the slot of its handle.
  pub register_works :
      (s : System) (ticks : ℕ → ℕ) (name : Text)
      → Reachable float_to_chars clock s
      → s.logged < 2 ^ 64
      → length s.handles < k_max_threads
      → (i : ℕ) × (slots : List (Option Producer)) × (register_current_thread
            (pass float_to_chars clock ticks s.logger).1.slots
            name
          ≡ (value i, slots))
        × (get_elem? slots i ≡ some (some (Producer.make name)))
  register_works s ticks name reached small few =
      let v = Reachable-Invariant float_to_chars clock s reached small in
      let l = (pass float_to_chars clock ticks s.logger).1 in
      let p = pass-Passed float_to_chars clock s.logger s.logged ticks small v.accounted in
      let s' : System = record { logger = l; handles = s.handles; logged = s.logged } in
      let passed = then_step s s' reached (passes s.logger s.handles s.logged ticks) in
      let size = Reachable-length float_to_chars clock s' passed in
      elim (register_current_thread_lem l.slots name) [
        | inl (taken, _) ↦
            (let full = pointed_full l.slots s.handles 0 p.open_slots taken (λ j.
                (let here : 0 + j ≡ j = omega arith in rw here (v.owned j ∙ sym (p.live j)))) in
              absurd (omega (arith, full, size, pointed_max s.handles 0 (length l.slots))))
        | inr (i, _, free, done) ↦ (
          i,
          set l.slots i (some (Producer.make name)),
          done,
          set_free l.slots i (Producer.make name) free,
        )
      ]
