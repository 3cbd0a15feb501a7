-- ===== src/Logger/Ordered.antt =====
-- What a thread logs stands in the file in order, among what the others log.
use gamegine.Common.{
  ℕ, ◌+◌, ◌-◌, ◌<◌, ◌^◌, Bool, true, false, inl, inr, Option, none, List, [], ◌∷◌, ◌++◌, ◌≡◌, refl,
  arith, Text, take,
}
use gamegine.Clock.{TickConversion}
use gamegine.LogRecord.{LogRecord}
use gamegine.SpscRing.Valid.{fresh-IsValid}
use gamegine.Logger.Producer
use gamegine.Logger.Producer.{Producer, blank, k_ring_bits}
use gamegine.Logger.Handle
use gamegine.Logger.Handle.{Handle, at_slot}
use gamegine.Logger.State.{Logger, pass}
use gamegine.Logger.System.{System}
use gamegine.Logger.Account.{debt, debts, set-debts, make-IsSound}
use gamegine.Logger.Registered.{Claimed}
use gamegine.Logger.Drained.{waiting}
use gamegine.Logger.Slots.{set_free}
use gamegine.Logger.Pieces.{weight, Pays}
use gamegine.Logger.Entries.{Tells, others_tell, then-Tells}
use gamegine.Logger.Accounted.{Accounted, empty, pass-Passed}
use gamegine.Logger.Told.{others_last}
use gamegine.Logger.PassTold.{pass_beside, pass-PassTold}
use gamegine.Logger.Position.{Held, Standing, Position, opened, closing, finished}
use gamegine.Logger.Leaves.{remains-Position}
use gamegine.Logger.Watch.{Watch, watch, note, note_close}

pub note_name : (b taken : Bool) (r : LogRecord) (w : Watch) → (note b taken r w).name ≡ w.name
note_name true true r w = refl
note_name true false r w = refl
note_name false taken r w = refl

pub note_close_name : (b : Bool) (w : Watch) → (note_close b w).name ≡ w.name
note_close_name true w = refl
note_close_name false w = refl

module _ (float_to_chars : ℕ → Text) (clock : TickConversion) where
  -- All that is written, with the thread's part of it, and where the rest of that is.
  pub record Ordered (s : System) (w : Watch) : Type 0 where
    pub paid : ℕ
    pub told : List LogRecord
    pub lost : ℕ
    pub tells : Tells float_to_chars clock (take 16 w.name) paid told lost empty s.logger.output
    pub owes : paid + debts s.logger.slots + debt s.logger.shared ≡ s.logged
    pub position : Position w s.logger.slots told lost

  -- A step that writes nothing.
  pub silent-Ordered :
      (s s' : System) (w w' : Watch) (o : Ordered s w)
      → w'.name ≡ w.name
      → s'.logger.output ≡ s.logger.output
      → debts s'.logger.slots + debt s'.logger.shared + s.logged
        ≡ debts s.logger.slots + debt s.logger.shared + s'.logged
      → Position w' s'.logger.slots o.told o.lost
      → Ordered s' w'
  silent-Ordered s s' w w' o name same owes position = record {
    paid = o.paid;
    told = o.told;
    lost = o.lost;
    tells = rw (name, same) o.tells;
    owes = omega (arith, o.owes);
    position = position;
  }

  pub begins-Ordered :
      (l : Logger) (hs : List Handle) (n thread i : ℕ) (name : Text)
      (slots : List (Option Producer))
      → Accounted float_to_chars clock l n
      → Claimed l.slots name i slots
      → Ordered
          (record {
            logger = record l { slots = slots };
            handles = Handle.make thread i ∷ hs;
            logged = n;
          })
          (watch i name)
  unfolding Producer.make
  begins-Ordered l hs n thread i name slots a (free, e) =
      let (s, z) = make-IsSound n name in
      let (_, same) = set-debts n l.slots i (Producer.make name) free s z a.sound in
      let (_, waits) = fresh-IsValid blank k_ring_bits (omega arith) in
      let before : Pays float_to_chars clock (weight a.pieces) empty l.output = record {
        valid = a.valid;
        pieces = a.pieces;
        wrote = a.wrote;
        weighs = refl;
      } in
      rw e (record {
        paid = weight a.pieces;
        told = [];
        lost = 0;
        tells = others_tell float_to_chars clock (take 16 name) before;
        owes = omega (arith, a.weighs);
        position =
            opened i (Producer.make name)
              (record {
                holds = set_free l.slots i (Producer.make name) free;
                name = refl;
                records = waits;
                losses = omega arith;
              })
              refl refl;
      })

  passes_slot :
      (l : Logger) (hs : List Handle) (n : ℕ) (ticks : ℕ → ℕ) (w : Watch) (i : ℕ) (p : Producer)
      (o : Ordered (record { logger = l; handles = hs; logged = n }) w)
      → n < 2 ^ 64
      → Accounted float_to_chars clock l n
      → Held w l.slots o.told o.lost i p
      → Standing w i p
      → Ordered
          (record { logger = (pass float_to_chars clock ticks l).1; handles = hs; logged = n })
          w
  passes_slot l hs n ticks w i p o small a h standing =
      let passed = pass-Passed float_to_chars clock l n ticks small a in
      let t = pass-PassTold float_to_chars clock n ticks l i p small a h.holds in
      let l' = (pass float_to_chars clock ticks l).1 in
      let named : Tells float_to_chars clock (take 16 w.name) (debts l.slots + debt l.shared)
          (waiting p) (p.dropped - p.reported) l.output l'.output =
        (rw h.name at t.tells) in
      record {
        paid = o.paid + (debts l.slots + debt l.shared);
        told = o.told ++ waiting p;
        lost = o.lost + (p.dropped - p.reported);
        tells = then-Tells float_to_chars clock o.tells named;
        owes = omega (arith, o.owes, passed.settled, passed.shared_settled);
        position =
            remains-Position w l.slots o.told o.lost l'.slots i p t.slot h standing t.holds
              t.remains;
      }

  passes_finished :
      (l : Logger) (hs : List Handle) (n : ℕ) (ticks : ℕ → ℕ) (w : Watch)
      (o : Ordered (record { logger = l; handles = hs; logged = n }) w)
      → n < 2 ^ 64
      → Accounted float_to_chars clock l n
      → w.open_slot ≡ none
      → o.told ≡ w.accepted
      → o.lost ≡ w.lost
      → Ordered
          (record { logger = (pass float_to_chars clock ticks l).1; handles = hs; logged = n })
          w
  passes_finished l hs n ticks w o small a gone told lost =
      let passed = pass-Passed float_to_chars clock l n ticks small a in
      record {
        paid = o.paid + (debts l.slots + debt l.shared);
        told = o.told;
        lost = o.lost;
        tells =
            others_last float_to_chars clock o.tells
              (pass_beside float_to_chars clock n ticks l (take 16 w.name) small a);
        owes = omega (arith, o.owes, passed.settled, passed.shared_settled);
        position = finished gone told lost;
      }

  pub passes-Ordered :
      (l : Logger) (hs : List Handle) (n : ℕ) (ticks : ℕ → ℕ) (w : Watch)
      → n < 2 ^ 64
      → Accounted float_to_chars clock l n
      → Ordered (record { logger = l; handles = hs; logged = n }) w
      → Ordered
          (record { logger = (pass float_to_chars clock ticks l).1; handles = hs; logged = n })
          w
  passes-Ordered l hs n ticks w small a o = go o.position
    where
      go :
          Position w l.slots o.told o.lost
          → Ordered
              (record { logger = (pass float_to_chars clock ticks l).1; handles = hs; logged = n })
              w
      go (opened i p h at live) = passes_slot l hs n ticks w i p o small a h (inl (at, live))
      go (closing i p h gone closed) =
          passes_slot l hs n ticks w i p o small a h (inr (gone, closed))
      go (finished gone told lost) = passes_finished l hs n ticks w o small a gone told lost
