-- ===== src/Logger/Followed.antt =====
-- Over every call of a program, what a watched thread logs is in order.
use gamegine.Common.{ℕ, ◌+◌, ◌<◌, ◌^◌, some, ◌∷◌, ◌++◌, ◌≡◌, refl, sym, ap, arith, Text, set}
use gamegine.Clock.{TickConversion}
use gamegine.Logger.Producer
use gamegine.Logger.Producer.{Producer, blank, k_ring_bits}
use gamegine.Logger.Handle
use gamegine.Logger.Handle.{Handle, at_slot}
use gamegine.Logger.State.{push_locked}
use gamegine.Logger.System.{
  System, Step, registers, refused, moves, logs, logs_locked, closes, passes,
}
use gamegine.Logger.Owners.{owner_live}
use gamegine.Logger.Account.{push-debts, push-IsSound, set-debts, make-IsSound}
use gamegine.Logger.Handles.{push-Found, destroy-debts}
use gamegine.Logger.Registered.{registers-Claimed, refused-kept}
use gamegine.Logger.Slots.{set_other}
use gamegine.Logger.Accounted.{empty}
use gamegine.Logger.Position.{kept-Position, push-Position}
use gamegine.Logger.Watch.{
  Watch, is_watched, slot_takes, note, note_close, follow, Watched, begins, goes_on,
  Watched-Reachable,
}
use gamegine.Logger.Complete.{Invariant, Reachable-Invariant, Step-logged}
use gamegine.Logger.Leaves.{close-Position}
use gamegine.Logger.Ordered.{
  note_name, note_close_name, Ordered, silent-Ordered, begins-Ordered, passes-Ordered,
}

module _ (float_to_chars : ℕ → Text) (clock : TickConversion) where
  Step-Ordered :
      (s s' : System) (w : Watch) (step : Step float_to_chars clock s s')
      → s'.logged < 2 ^ 64
      → Invariant float_to_chars clock s
      → Ordered float_to_chars clock s w
      → Ordered float_to_chars clock s' (follow float_to_chars clock step w)
  unfolding push_locked
  Step-Ordered _ _ w (registers l hs n thread i name slots e) small v o =
      let (free, set_at) = registers-Claimed l.slots name i slots e in
      let (sound, empty) = make-IsSound n name in
      let (_, same) =
        set-debts n l.slots i (Producer.make name) free sound empty v.accounted.sound in
      rw set_at (
        silent-Ordered float_to_chars clock (record { logger = l; handles = hs; logged = n })
          (record {
            logger = record l { slots = set l.slots i (some (Producer.make name)) };
            handles = Handle.make thread i ∷ hs;
            logged = n;
          })
          w w o refl refl (omega (arith, same))
          (kept-Position w l.slots o.told o.lost (set l.slots i (some (Producer.make name)))
            (λ j p at. set_other l.slots i j (Producer.make name) p free at) o.position))
  Step-Ordered _ _ w (refused l hs n name err slots e) small v o =
      rw (refused-kept l.slots name err slots e)
        (silent-Ordered float_to_chars clock _ _ w w o refl refl (omega arith) o.position)
  Step-Ordered _ _ w (moves l before h after n) small v o =
      silent-Ordered float_to_chars clock _ _ w w o refl refl (omega arith) o.position
  Step-Ordered _ _ w (logs l before h after n thread r slots e) small v o =
      let f = push-Found thread h r l.slots slots e in
      let (_, more) = push-debts n l.slots f.slot f.found r small f.holds v.accounted.sound in
      let live = owner_live before h after l.slots f.slot v.owned f.points in
      let watched = is_watched h.producer w.open_slot in
      let taken = slot_takes r l.slots w.open_slot in
      let position =
        push-Position w l.slots o.told o.lost n f.slot r small v.accounted.sound live o.position in
      let same : is_watched (some f.slot) w.open_slot ≡ watched =
        ap (λ producer. is_watched producer w.open_slot) (sym f.points) in
      rw f.pushed (
        silent-Ordered float_to_chars clock
          (record { logger = l; handles = before ++ (h ∷ after); logged = n })
          (record {
            logger = record l { slots = at_slot (λ q. Producer.push q r) l.slots f.slot };
            handles = before ++ (h ∷ after);
            logged = n + 1;
          })
          w (note watched taken r w) o (note_name watched taken r w) refl (omega (arith, more))
          (rw same at position))
  Step-Ordered _ _ w (logs_locked l hs n r) small v o =
      let (_, more) = push-IsSound n l.shared r small v.accounted.shared_sound in
      silent-Ordered float_to_chars clock _ _ w w o refl refl (omega (arith, more)) o.position
  Step-Ordered _ _ w (closes l before h after n) small v o =
      let (_, same) = destroy-debts n h l.slots v.accounted.sound in
      silent-Ordered float_to_chars clock _ _ w (note_close (is_watched h.producer w.open_slot) w) o
        (note_close_name (is_watched h.producer w.open_slot) w) refl (omega (arith, same))
        (close-Position w l.slots o.told o.lost h.producer h.owner o.position)
  Step-Ordered _ _ w (passes l hs n ticks) small v o =
      passes-Ordered float_to_chars clock l hs n ticks w small v.accounted o

  pub Watched-Ordered :
      (s : System) (w : Watch)
      → Watched float_to_chars clock s w
      → s.logged < 2 ^ 64
      → Ordered float_to_chars clock s w
  Watched-Ordered _ _ (begins l hs n thread i name slots r e) small =
      let v =
        Reachable-Invariant float_to_chars clock (record { logger = l; handles = hs; logged = n }) r
          small in
      begins-Ordered float_to_chars clock l hs n thread i name slots v.accounted
        (registers-Claimed l.slots name i slots e)
  Watched-Ordered s' _ (goes_on s _ w watched step) small =
      let before : s.logged < 2 ^ 64 = omega (arith, Step-logged float_to_chars clock s s' step) in
      let v =
        Reachable-Invariant float_to_chars clock s
          (Watched-Reachable float_to_chars clock s w watched) before in
      Step-Ordered s s' w step small v (Watched-Ordered s w watched before)
