-- ===== src/Logger/Settled.antt =====
-- What a pass, and the destructor, leave when all that was logged is accounted for.
use gamegine.Common.{
  ℕ, ◌<◌, ◌^◌, some, List, [], ◌++◌, ◌≡◌, refl, sym, ap, ◌∙◌, arith, Text, All, append-nil, take,
}
use gamegine.Clock.{TickConversion}
use gamegine.Logger.State.{Logger, pass, destroy}
use gamegine.Logger.System.{System, Reachable}
use gamegine.Logger.Owners.{owners}
use gamegine.Logger.Pieces.{Piece, weight, texts}
use gamegine.Logger.Passes.{IsOpen, IsFree, slots-IsFree, all-IsFree}
use gamegine.Logger.Accounted.{pass-Passed}
use gamegine.Logger.Complete.{Reachable-Invariant}

module _ (float_to_chars : ℕ → Text) (clock : TickConversion) where
  -- After any sequence of whole calls, of fewer than 2 ^ 64 records logged, over a file whose
  -- `write(2)` only takes characters or is interrupted, one pass of the logger thread leaves each
  -- slot free or with a live producer, and the file holds lines of records and reports of losses,
  -- whose records and counts add up to all the records logged.
  pass_settles :
      (s : System) (ticks : ℕ → ℕ)
      → Reachable float_to_chars clock s
      → s.logged < 2 ^ 64
      → All IsOpen (pass float_to_chars clock ticks s.logger).1.slots
        × (pieces : List Piece) × ((pass float_to_chars clock ticks s.logger).1.output.out
            ≡ texts float_to_chars clock pieces)
        × (weight pieces ≡ s.logged)
  pass_settles s ticks reached small =
      let v = Reachable-Invariant float_to_chars clock s reached small in
      let p = pass-Passed float_to_chars clock s.logger s.logged ticks small v.accounted in
      let out = (pass float_to_chars clock ticks s.logger).1.output in
      let unsaid : take out.size out.batch ≡ [] = ap (λ (n : ℕ). take n out.batch) p.flushed in
      (
        p.open_slots,
        p.accounted.pieces,
        sym (append-nil out.out) ∙ ap (λ t. out.out ++ t) (sym unsaid) ∙ p.accounted.wrote,
        omega (arith, p.accounted.weighs, p.settled, p.shared_settled),
      )

  pub freed_slots :
      (s : System) (ticks : ℕ → ℕ)
      → Reachable float_to_chars clock s
      → s.logged < 2 ^ 64
      → s.handles ≡ []
      → All IsFree (pass float_to_chars clock ticks s.logger).1.slots
  freed_slots s ticks reached small e =
      let v = Reachable-Invariant float_to_chars clock s reached small in
      let p = pass-Passed float_to_chars clock s.logger s.logged ticks small v.accounted in
      slots-IsFree (pass float_to_chars clock ticks s.logger).1.slots
        (pass_settles s ticks reached small).0
        (λ i. p.live i ∙ sym (v.owned i) ∙ ap (λ hs. owners hs i) e)

  -- Once every handle is destroyed, the destructor leaves what its pass does.
  pub destroy_passes :
      (s : System) (ticks : ℕ → ℕ)
      → Reachable float_to_chars clock s
      → s.logged < 2 ^ 64
      → s.handles ≡ []
      → destroy float_to_chars clock ticks s.logger
        ≡ some (pass float_to_chars clock ticks s.logger).1
  unfolding destroy
  destroy_passes s ticks reached small e =
      let l = (pass float_to_chars clock ticks s.logger).1 in
      let asserted = all-IsFree l.slots (freed_slots s ticks reached small e) in rw asserted refl

  -- After any sequence of registrations, pushes, moves, closes, locked calls and passes, of fewer
  -- than 2 ^ 64 records logged, over a file whose `write(2)` only takes characters or is
  -- interrupted: once every handle is destroyed, the assertion of the destructor holds, every slot
  -- is free, and the file holds lines of records and reports of losses, whose records and counts
  -- add up to the records logged.
  destroy_accounts :
      (s : System) (ticks : ℕ → ℕ)
      → Reachable float_to_chars clock s
      → s.logged < 2 ^ 64
      → s.handles ≡ []
      → (l : Logger) × (destroy float_to_chars clock ticks s.logger ≡ some l)
        × All IsFree l.slots
        × (pieces : List Piece) × (l.output.out ≡ texts float_to_chars clock pieces)
        × (weight pieces ≡ s.logged)
  destroy_accounts s ticks reached small e =
      let (open_slots, pieces, wrote, weighs) = pass_settles s ticks reached small in
      (
        (pass float_to_chars clock ticks s.logger).1,
        destroy_passes s ticks reached small e,
        freed_slots s ticks reached small e,
        pieces,
        wrote,
        weighs,
      )
