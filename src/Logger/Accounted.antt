-- ===== src/Logger/Accounted.antt =====
-- What is written of all that a logger was given, and what its producers still owe.
use gamegine.Common.{
  ℕ, ◌+◌, ◌<◌, ◌^◌, false, Option, List, [], ◌≡◌, refl, ◌∙◌, arith, Text, replicate,
  length-replicate, All, codes,
}
use gamegine.Clock.{TickConversion}
use gamegine.LogRecord.{LogRecord}
use gamegine.Logger.Output.{Output, Answer, flush}
use gamegine.Logger.Written
use gamegine.Logger.Written.{Works, said, flush-IsValid}
use gamegine.Logger.Producer.{Producer, k_max_threads}
use gamegine.Logger.Drain.{drain_one}
use gamegine.Logger.State.{Logger, start, push_locked, drain_slots, drain, pass}
use gamegine.Logger.Owners.{live_at}
use gamegine.Logger.Account.{
  IsSound, SlotIsSound, debt, debts, later_sound, make-IsSound, push-IsSound, free-debts,
}
use gamegine.Logger.Pieces.{Piece, weight, texts, Pays, then-Pays}
use gamegine.Logger.Entries.{forgets}
use gamegine.Logger.Paid.{debt-Paid, drain_one-Tells}
use gamegine.Logger.Passes.{IsOpen, drain_slots-Drained}

abbrev pub empty : Output
empty = record { batch = replicate 65536 0; size = 0; answers = []; out = [] }

module _ (float_to_chars : ℕ → Text) (clock : TickConversion) where
  -- What is written accounts for all that was logged but what the producers owe.
  pub record Accounted (l : Logger) (logged : ℕ) : Type 0 where
    pub valid : Written.IsValid l.output
    pub sound : All (SlotIsSound logged) l.slots
    pub shared_sound : IsSound logged l.shared
    pub pieces : List Piece
    pub wrote : said l.output ≡ texts float_to_chars clock pieces
    pub weighs : weight pieces + debts l.slots + debt l.shared ≡ logged

  pub record Passed (l : Logger) (n : ℕ) (l' : Logger) : Type 0 where
    pub accounted : Accounted l' n
    pub settled : debts l'.slots ≡ 0
    pub shared_settled : debt l'.shared ≡ 0
    pub open_slots : All IsOpen l'.slots
    pub live : (i : ℕ) → live_at l'.slots i ≡ live_at l.slots i
    pub flushed : l'.output.size ≡ 0

  pub pass-Passed :
      (l : Logger) (n : ℕ) (ticks : ℕ → ℕ)
      → n < 2 ^ 64
      → Accounted l n
      → Passed l n (pass float_to_chars clock ticks l).1
  unfolding pass drain flush
  pass-Passed l n ticks small a =
      let d =
        drain_slots-Drained float_to_chars clock n ticks false l.slots l.output small a.sound
          a.valid in
      let slots = drain_slots float_to_chars clock ticks false l.slots l.output in
      let (tells, paid) =
        drain_one-Tells float_to_chars clock n (ticks k_max_threads) l.shared slots.2 small
          a.shared_sound d.pays.valid in
      let shared = drain_one float_to_chars clock (ticks k_max_threads) l.shared slots.2 in
      let (vf, same) = flush-IsValid shared.2 tells.valid in
      let before : Pays float_to_chars clock (weight a.pieces) empty l.output = record {
        valid = a.valid;
        pieces = a.pieces;
        wrote = a.wrote;
        weighs = refl;
      } in
      let all =
        then-Pays float_to_chars clock before
          (then-Pays float_to_chars clock d.pays (forgets float_to_chars clock tells)) in
      record {
        accounted = record {
          valid = vf;
          sound = d.sound;
          shared_sound = paid.sound;
          pieces = all.pieces;
          wrote = same ∙ all.wrote;
          weighs = omega (arith, all.weighs, a.weighs, d.settled, debt-Paid paid);
        };
        settled = d.settled;
        shared_settled = debt-Paid paid;
        open_slots = d.open_slots;
        live = d.live;
        flushed = refl;
      }

  -- Other slots, which owe what is due.
  pub slots-Accounted :
      (l : Logger) (n m : ℕ) (slots : List (Option Producer))
      → Accounted l n
      → All (SlotIsSound m) slots
      → IsSound m l.shared
      → debts slots + n ≡ debts l.slots + m
      → Accounted (record l { slots = slots }) m
  slots-Accounted l n m slots a sound shared e = record {
    valid = a.valid;
    sound = sound;
    shared_sound = shared;
    pieces = a.pieces;
    wrote = a.wrote;
    weighs = omega (arith, a.weighs);
  }

  pub push_locked-Accounted :
      (l : Logger) (n : ℕ) (r : LogRecord)
      → n + 1 < 2 ^ 64
      → Accounted l n
      → Accounted (push_locked l r) (n + 1)
  unfolding push_locked
  push_locked-Accounted l n r small a =
      let (s, more) = push-IsSound n l.shared r small a.shared_sound in
      record {
        valid = a.valid;
        sound = later_sound n l.slots a.sound;
        shared_sound = s;
        pieces = a.pieces;
        wrote = a.wrote;
        weighs = omega (arith, a.weighs);
      }

  pub start-Accounted : (answers : List Answer) → All Works answers → Accounted (start answers) 0
  unfolding start
  start-Accounted answers works =
      let (s, z) = make-IsSound 0 (codes "shared") in
      let (sound, none_owed) = free-debts 0 k_max_threads in
      record {
        valid = record {
          batch_size = length-replicate {A = ℕ} 65536 0;
          used = omega arith;
          works = works;
        };
        sound = sound;
        shared_sound = s;
        pieces = [];
        wrote = refl;
        weighs = omega arith;
      }
