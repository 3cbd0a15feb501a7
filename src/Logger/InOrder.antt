-- ===== src/Logger/InOrder.antt =====
-- The log of each thread: what it logged through its handle, in order, in the file that all share.
use gamegine.Common.{
  All, length_zero, ℕ, ◌<◌, ◌^◌, List, [], ◌++◌, ◌≡◌, sym, ap, ◌∙◌, arith, Text, take, append-nil,
  Option, some,
}
use gamegine.Clock.{TickConversion}
use gamegine.LogRecord.{LogRecord}
use gamegine.Logger.Producer.{Producer}
use gamegine.Logger.Drained.{waiting}
use gamegine.Logger.State.{Logger, pass, destroy}
use gamegine.Logger.System.{System, passes}
use gamegine.Logger.Account.{debts}
use gamegine.Logger.Slots.{slot_owes}
use gamegine.Logger.Pieces.{weight, texts}
use gamegine.Logger.Entries.{Entry, shown, own_records, own_losses}
use gamegine.Logger.Passes.{IsFree}
use gamegine.Logger.Accounted.{pass-Passed}
use gamegine.Logger.Watch.{Watch, Watched, goes_on, Watched-Reachable}
use gamegine.Logger.Position.{Held, Position, opened, closing, finished}
use gamegine.Logger.Followed.{Watched-Ordered}
use gamegine.Logger.Complete.{Reachable-Invariant}
use gamegine.Logger.Settled.{destroy_passes, freed_slots}

-- Once nothing is owed, all that a thread logged is written.
settled_slot :
    (w : Watch) (slots : List (Option Producer)) (told : List LogRecord) (lost i : ℕ) (p : Producer)
    → debts slots ≡ 0
    → Held w slots told lost i p
    → (told ≡ w.accepted) × (lost ≡ w.lost)
settled_slot w slots told lost i p none_owed h =
    let owes = slot_owes slots i p h.holds in
    let empty = length_zero (waiting p) (omega arith) in
    (sym (append-nil told) ∙ ap (λ rs. told ++ rs) (sym empty) ∙ h.records, omega (arith, h.losses))

settled_told :
    (w : Watch) (slots : List (Option Producer)) (told : List LogRecord) (lost : ℕ)
    → debts slots ≡ 0
    → Position w slots told lost
    → (told ≡ w.accepted) × (lost ≡ w.lost)
settled_told w slots told lost none_owed (opened i p h at live) =
    settled_slot w slots told lost i p none_owed h
settled_told w slots told lost none_owed (closing i p h gone closed) =
    settled_slot w slots told lost i p none_owed h
settled_told w slots told lost none_owed (finished gone all lost_all) = (all, lost_all)

module _ (float_to_chars : ℕ → Text) (clock : TickConversion) where
  -- After any sequence of whole calls since a thread registered, of fewer than 2 ^ 64 records
  -- logged, over a file whose `write(2)` only takes characters or is interrupted: one pass of the
  -- logger thread leaves a file that is lines of records and reports of losses, whose records and
  -- counts add up to all the records logged, and among them the lines under the thread's name, cut
  -- to 16 characters, that are marked as its own are the records that its ring took, in the order
  -- that it logged them through its handle, and its own reports add up to the records that its ring
  -- refused.
  pub pass_in_order :
      (s : System) (w : Watch) (ticks : ℕ → ℕ)
      → Watched float_to_chars clock s w
      → s.logged < 2 ^ 64
      → (entries : List Entry) × ((pass float_to_chars clock ticks s.logger).1.output.out
          ≡ texts float_to_chars clock (shown (take 16 w.name) entries))
        × (weight (shown (take 16 w.name) entries) ≡ s.logged)
        × (own_records entries ≡ w.accepted)
        × (own_losses entries ≡ w.lost)
  pass_in_order s w ticks watched small =
      let v =
        Reachable-Invariant float_to_chars clock s
          (Watched-Reachable float_to_chars clock s w watched) small in
      let p = pass-Passed float_to_chars clock s.logger s.logged ticks small v.accounted in
      let l = (pass float_to_chars clock ticks s.logger).1 in
      let s' : System = record { logger = l; handles = s.handles; logged = s.logged } in
      let o =
        Watched-Ordered float_to_chars clock s' w
          (goes_on s s' w watched (passes s.logger s.handles s.logged ticks)) small in
      let (told, lost) = settled_told w l.slots o.told o.lost p.settled o.position in
      let unsaid : take l.output.size l.output.batch ≡ [] =
        ap (λ (n : ℕ). take n l.output.batch) p.flushed in
      (
        o.tells.entries,
        sym (append-nil l.output.out) ∙ ap (λ t. l.output.out ++ t) (sym unsaid) ∙ o.tells.wrote,
        omega (arith, o.tells.weighs, o.owes, p.settled, p.shared_settled),
        o.tells.told ∙ told,
        o.tells.lost ∙ lost,
      )

  -- After any sequence of whole calls since a thread registered, of fewer than 2 ^ 64 records
  -- logged, over a file whose `write(2)` only takes characters or is interrupted: once every handle
  -- is destroyed the assertion of the destructor holds, every slot is free, and the file is lines
  -- of records and reports of losses, whose records and counts add up to all the records logged,
  -- and among them the lines under the thread's name, cut to 16 characters, that are marked as its
  -- own are the records that its ring took, in the order that it logged them through its handle,
  -- and its own reports add up to the records that its ring refused.
  pub destroy_in_order :
      (s : System) (w : Watch) (ticks : ℕ → ℕ)
      → Watched float_to_chars clock s w
      → s.logged < 2 ^ 64
      → s.handles ≡ []
      → (l : Logger) × (destroy float_to_chars clock ticks s.logger ≡ some l)
        × All IsFree l.slots
        × (entries : List Entry) × (l.output.out
            ≡ texts float_to_chars clock (shown (take 16 w.name) entries))
        × (weight (shown (take 16 w.name) entries) ≡ s.logged)
        × (own_records entries ≡ w.accepted)
        × (own_losses entries ≡ w.lost)
  destroy_in_order s w ticks watched small e =
      let (entries, wrote, weighs, told, lost) = pass_in_order s w ticks watched small in
      (
        (pass float_to_chars clock ticks s.logger).1,
        destroy_passes float_to_chars clock s ticks
            (Watched-Reachable float_to_chars clock s w watched) small e,
        freed_slots float_to_chars clock s ticks
            (Watched-Reachable float_to_chars clock s w watched) small e,
        entries,
        wrote,
        weighs,
        told,
        lost,
      )
