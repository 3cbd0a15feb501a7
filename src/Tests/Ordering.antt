-- ===== src/Tests/Ordering.antt =====
-- A thread that is watched while it registers, logs one error and ends.
use gamegine.Common.{All, none, some, List, [], ◌∷◌, ◌≡◌, refl, arith, codes}
use gamegine.SpscRing.Value.{fresh, try_push}
use gamegine.Logger.Producer
use gamegine.Logger.Producer.{register_current_thread}
use gamegine.Logger.State.{Logger, pass, destroy, start}
use gamegine.Logger.Handle
use gamegine.Logger.System.{at_start, logs, closes}
use gamegine.Logger.Pieces.{weight, texts}
use gamegine.Logger.Passes.{IsFree}
use gamegine.Logger.Entries.{Entry, shown, own_records, own_losses}
use gamegine.Logger.Watch.{Watch, Watched, watch, begins, goes_on}
use gamegine.Logger.InOrder.{pass_in_order, destroy_in_order}
use gamegine.Tests.Running.{
  float_text, clock, ticks, a_record, registered_slots, logged_slots, begun, registered, logged,
  ended,
}

registered-Watched : Watched float_text clock registered (watch 0 (codes "render"))
unfolding register_current_thread Producer.claim Producer.make start
registered-Watched = begins begun [] 0 7 0 (codes "render") registered_slots (at_start [] tt) refl

abbrev after_log : Watch
after_log = record { open_slot = some 0; name = codes "render"; accepted = a_record ∷ []; lost = 0 }

logged-Watched : Watched float_text clock logged after_log
unfolding Handle.push Handle.make try_push Producer.make fresh
logged-Watched = goes_on registered logged (watch 0 (codes "render")) registered-Watched (
    logs (record begun { slots = registered_slots }) [] (Handle.make 7 0) [] 0 7 a_record
      logged_slots refl)

abbrev after_close : Watch
after_close = record after_log { open_slot = none }

ended-Watched : Watched float_text clock ended after_close
unfolding Handle.make
ended-Watched =
    goes_on logged ended after_log logged-Watched
      (closes (record begun { slots = logged_slots }) [] (Handle.make 7 0) [] 1)

pass_in_order_example :
    (entries : List Entry) × ((pass float_text clock ticks logged.logger).1.output.out
      ≡ texts float_text clock (shown (codes "render") entries))
    × (weight (shown (codes "render") entries) ≡ 1)
    × (own_records entries ≡ a_record ∷ [])
    × (own_losses entries ≡ 0)
pass_in_order_example =
    pass_in_order float_text clock logged after_log ticks logged-Watched (omega arith)

destroy_in_order_example :
    (l : Logger) × (destroy float_text clock ticks ended.logger ≡ some l)
    × All IsFree l.slots
    × (entries : List Entry) × (l.output.out
        ≡ texts float_text clock (shown (codes "render") entries))
    × (weight (shown (codes "render") entries) ≡ 1)
    × (own_records entries ≡ a_record ∷ [])
    × (own_losses entries ≡ 0)
destroy_in_order_example =
    destroy_in_order float_text clock ended after_close ticks ended-Watched (omega arith) refl
