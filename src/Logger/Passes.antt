-- ===== src/Logger/Passes.antt =====
-- What the logger thread writes of all the producers in one pass, and what it leaves of the slots.
use gamegine.Common.{
  all, true, ℕ, zero, suc, ◌<◌, ◌^◌, Bool, ◌||◌, Option, none, some, List, [], ◌∷◌, ◌≡◌, refl, sym,
  ap, ◌∙◌, arith, Text, All,
}
use gamegine.Clock.{TickConversion}
use gamegine.Logger.Output.{Output}
use gamegine.Logger.Written
use gamegine.Logger.Written.{said, flush-IsValid}
use gamegine.Logger.Producer.{Phase, Producer}
use gamegine.Logger.Drain.{drain_one}
use gamegine.Logger.State.{after_drain, drain_slots, is_free}
use gamegine.Logger.Owners.{live_at, liveness, liveness_of}
use gamegine.Logger.Account.{IsSound, SlotIsSound, slot_debt, debt, debts}
use gamegine.Logger.Pieces.{Pays, nothing-Pays, then-Pays}
use gamegine.Logger.Entries.{forgets}
use gamegine.Logger.Paid.{debt-Paid, drain_one-Tells}

-- A slot after a pass: free, or with a live producer.
abbrev pub IsOpen : Option Producer → Type 0
IsOpen none = Unit
IsOpen (some p) = p.phase ≡ Phase.live

abbrev pub IsFree : Option Producer → Type 0
IsFree none = Unit
IsFree (some p) = ⊥

pub slots-IsFree :
    (slots : List (Option Producer))
    → All IsOpen slots
    → ((i : ℕ) → live_at slots i ≡ 0)
    → All IsFree slots
slots-IsFree [] o z = tt
slots-IsFree (none ∷ slots) (o, rest) z = (tt, slots-IsFree slots rest (λ i. z (suc i)))
slots-IsFree (some p ∷ slots) (o, rest) z =
    let live = ap liveness o in absurd (omega (arith, z 0, live))

pub all-IsFree : (slots : List (Option Producer)) → All IsFree slots → all is_free slots ≡ true
all-IsFree [] h = refl
all-IsFree (none ∷ slots) (f, h) = all-IsFree slots h
all-IsFree (some p ∷ slots) (f, h) = absurd f

-- What a slot is after a pass, by whether its producer was live.
record Settled (n was_live : ℕ) (slot : Option Producer) : Type 0 where
  sound : SlotIsSound n slot
  settled : slot_debt slot ≡ 0
  is_open : IsOpen slot
  live : liveness_of slot ≡ was_live

free-Settled : (n : ℕ) → Settled n 0 none
free-Settled n = record { sound = tt; settled = refl; is_open = tt; live = refl }

after_drain-Settled :
    (n : ℕ) (phase told : Phase) (q : Producer)
    → told ≡ phase
    → q.phase ≡ phase
    → IsSound n q
    → debt q ≡ 0
    → Settled n (liveness phase) (after_drain told q)
after_drain-Settled n phase Phase.live q told kept s z = record {
  sound = s;
  settled = z;
  is_open = kept ∙ sym told;
  live = ap liveness kept;
}
after_drain-Settled n phase Phase.closed q told kept s z = record {
  sound = tt;
  settled = refl;
  is_open = tt;
  live = ap liveness told;
}

module _ (float_to_chars : ℕ → Text) (clock : TickConversion) where
  -- What the slots are after a pass.
  pub record Drained (n : ℕ) (slots : List (Option Producer)) (o : Output)
      (slots' : List (Option Producer)) (o' : Output) : Type 0 where
    pub pays : Pays float_to_chars clock (debts slots) o o'
    pub sound : All (SlotIsSound n) slots'
    pub settled : debts slots' ≡ 0
    pub open_slots : All IsOpen slots'
    pub live : (j : ℕ) → live_at slots' j ≡ live_at slots j

  cons-Drained :
      (n : ℕ) (slot : Option Producer) (slots : List (Option Producer)) (o o1 : Output)
      (slot' : Option Producer) (slots' : List (Option Producer)) (o' : Output)
      → Pays float_to_chars clock (slot_debt slot) o o1
      → Settled n (liveness_of slot) slot'
      → Drained n slots o1 slots' o'
      → Drained n (slot ∷ slots) o (slot' ∷ slots') o'
  cons-Drained n slot slots o o1 slot' slots' o' pays s d = record {
    pays = then-Pays float_to_chars clock pays d.pays;
    sound = (s.sound, d.sound);
    settled = omega (arith, s.settled, d.settled);
    open_slots = (s.is_open, d.open_slots);
    live = live;
  }
    where
      live : (j : ℕ) → live_at (slot' ∷ slots') j ≡ live_at (slot ∷ slots) j
      live zero = s.live
      live (suc j) = d.live j

  pub drain_slots-Drained :
      (n : ℕ) (ticks : ℕ → ℕ) (behind : Bool) (slots : List (Option Producer)) (o : Output)
      → n < 2 ^ 64
      → All (SlotIsSound n) slots
      → Written.IsValid o
      → Drained n slots o
          (drain_slots float_to_chars clock ticks behind slots o).1
          (drain_slots float_to_chars clock ticks behind slots o).2
  unfolding drain_slots
  drain_slots-Drained n ticks behind [] o small s v = record {
    pays = nothing-Pays float_to_chars clock o v;
    sound = tt;
    settled = refl;
    open_slots = tt;
    live = λ j. refl;
  }
  drain_slots-Drained n ticks behind (none ∷ slots) o small (s, rest) v =
      let later : ℕ → ℕ = λ i. ticks (suc i) in
      let result = drain_slots float_to_chars clock later behind slots o in
      cons-Drained n none slots o o none result.1 result.2 (nothing-Pays float_to_chars clock o v)
        (free-Settled n) (drain_slots-Drained n later behind slots o small rest v)
  drain_slots-Drained n ticks behind (some p ∷ slots) o small (s, rest) v =
      let later : ℕ → ℕ = λ i. ticks (suc i) in
      let one = drain_one float_to_chars clock (ticks 0) p o in
      let result = drain_slots float_to_chars clock later (behind || one.0.1) slots one.2 in
      let (tells, paid) = drain_one-Tells float_to_chars clock n (ticks 0) p o small s v in
      cons-Drained n (some p) slots o one.2 (after_drain one.0.0 one.1) result.1 result.2
        (forgets float_to_chars clock tells)
        (after_drain-Settled n p.phase one.0.0 one.1 paid.told_phase paid.phase paid.sound
          (debt-Paid paid))
        (drain_slots-Drained n later (behind || one.0.1) slots one.2 small rest tells.valid)
