-- ===== src/Logger/Paid.antt =====
-- What a pass says of one producer: a line for each record that waited, and a report of what it lost.
use gamegine.Common.{
  ℕ, ◌-◌, ◌≤◌, ◌<◌, ◌^◌, inl, inr, Bool, Bool-cases, List, [], ◌∷◌, ◌++◌, ◌≡◌, refl, sym, ap, ap₂,
  ◌∙◌, arith, Text, length, take_of_le, drop_of_le, append-nil, sub64, ◌==◌,
}
use gamegine.Clock.{TickConversion, ns_elapsed_since_start}
use gamegine.LogRecord.{LogRecord}
use gamegine.LogFormat.{line_text}
use gamegine.SpscRing.Valid.{length-contents}
use gamegine.Logger.Output.{Output}
use gamegine.Logger.Written
use gamegine.Logger.Written.{said}
use gamegine.Logger.Producer.{Phase, Producer, blank, k_ring_bits}
use gamegine.Logger.Drain.{limit, drain_one}
use gamegine.Logger.Drained.{waiting, lines}
use gamegine.Logger.Loss.{report, drain_one_lem, drain_one-kept}
use gamegine.Logger.Account.{IsSound, debt}
use gamegine.Logger.Pieces.{weight, weight-append, texts, texts-append}
use gamegine.Logger.Entries.{
  Entry, own_line, own_loss, shown, shown-append, own_records, own_records-append, own_losses,
  own_losses-append, Tells,
}

abbrev own_lines : List LogRecord → List Entry
own_lines [] = []
own_lines (r ∷ records) = own_line r ∷ own_lines records

weight-own_lines :
    (name : Text) (records : List LogRecord)
    → weight (shown name (own_lines records)) ≡ length records
weight-own_lines name [] = refl
weight-own_lines name (r ∷ records) = omega (arith, weight-own_lines name records)

own_records-own_lines : (records : List LogRecord) → own_records (own_lines records) ≡ records
own_records-own_lines [] = refl
own_records-own_lines (r ∷ records) = ap (λ rs. r ∷ rs) (own_records-own_lines records)

own_losses-own_lines : (records : List LogRecord) → own_losses (own_lines records) ≡ 0
own_losses-own_lines [] = refl
own_losses-own_lines (r ∷ records) = own_losses-own_lines records

-- The longest a ring can be is what a pass takes.
waiting-fits : (n : ℕ) (p : Producer) → IsSound n p → length (waiting p) ≤ 4096
waiting-fits n p s = omega (arith, length-contents blank k_ring_bits p.ring, s.ring.held)

all_taken : (n : ℕ) (p : Producer) → IsSound n p → length (waiting p) ≤ limit p.phase
all_taken n p s = let h = waiting-fits n p s in within (length (waiting p)) p.phase h
  where
    within : (m : ℕ) (phase : Phase) → m ≤ 4096 → m ≤ limit phase
    within m Phase.live h = omega arith
    within m Phase.closed h = omega arith

-- What is left of a producer after a pass.
pub record Paid (n : ℕ) (p : Producer) (told : Phase) (p' : Producer) : Type 0 where
  pub sound : IsSound n p'
  pub waits : waiting p' ≡ []
  pub reported : p'.reported ≡ p'.dropped
  pub name : p'.name ≡ p.name
  pub phase : p'.phase ≡ p.phase
  pub told_phase : told ≡ p.phase

pub debt-Paid :
    {n : ℕ} {p : Producer} {told : Phase} {p' : Producer} → Paid n p told p' → debt p' ≡ 0
debt-Paid paid = omega (arith, ap length paid.waits, paid.reported)

module _ (float_to_chars : ℕ → Text) (clock : TickConversion) where
  texts-own_lines :
      (name : Text) (records : List LogRecord)
      → texts float_to_chars clock (shown name (own_lines records))
        ≡ lines float_to_chars clock name records
  texts-own_lines name [] = refl
  texts-own_lines name (r ∷ records) =
      ap (λ t. line_text float_to_chars r name clock ++ t) (texts-own_lines name records)

  -- The report that a pass adds for a producer.
  record Reported (tick : ℕ) (p : Producer) : Type 0 where
    entries : List Entry
    wrote : texts float_to_chars clock (shown p.name entries) ≡ report float_to_chars clock tick p
    weighs : weight (shown p.name entries) ≡ sub64 p.dropped p.reported
    told : own_records entries ≡ []
    lost : own_losses entries ≡ sub64 p.dropped p.reported

  report-Reported : (tick : ℕ) (p : Producer) → Reported tick p
  report-Reported tick p = elim (Bool-cases (sub64 p.dropped p.reported == 0)) [
    | inl z ↦ record {
      entries = [];
      wrote = rw z refl;
      weighs = ground arith;
      told = refl;
      lost = ground arith;
    }
    | inr z ↦ record {
      entries = own_loss (ns_elapsed_since_start clock tick) (sub64 p.dropped p.reported) ∷ [];
      wrote = rw z (append-nil _);
      weighs = omega arith;
      told = refl;
      lost = omega arith;
    }
  ]

  -- A pass over one producer tells all that it owes.
  pub drain_one-Tells :
      (n tick : ℕ) (p : Producer) (o : Output)
      → n < 2 ^ 64
      → IsSound n p
      → Written.IsValid o
      → Tells float_to_chars clock p.name
          (debt p)
          (waiting p)
          (p.dropped - p.reported)
          o
          (drain_one float_to_chars clock tick p o).2
        × Paid n p
            (drain_one float_to_chars clock tick p o).0.0
            (drain_one float_to_chars clock tick p o).1
  drain_one-Tells n tick p o small s vo =
      let (vo', wrote, left, reported, taken) =
        drain_one_lem float_to_chars clock tick p o s.ring s.name vo in
      let (vr, dropped, name, phase) = drain_one-kept float_to_chars clock tick p o s.ring vo in
      let all = all_taken n p s in
      let report = report-Reported tick p in
      let r = drain_one float_to_chars clock tick p o in
      let h = s.name in
      let same = take_of_le (limit p.phase) (waiting p) all in
      let lines_shown = own_lines (waiting p) in
      let both = shown-append p.name lines_shown report.entries in
      let said_of = texts float_to_chars clock in
      (
        record {
          valid = vo';
          entries = lines_shown ++ report.entries;
          wrote =
              wrote
              ∙ ap (λ t. said o ++ t)
                  (ap₂ ◌++◌
                      (ap (lines float_to_chars clock p.name) same
                        ∙ sym (texts-own_lines p.name (waiting p)))
                      (sym report.wrote)
                    ∙ sym (
                        texts-append float_to_chars clock (shown p.name lines_shown)
                          (shown p.name report.entries))
                    ∙ ap said_of (sym both));
          weighs = omega (
            arith,
            ap weight both,
            weight-append (shown p.name lines_shown) (shown p.name report.entries),
            weight-own_lines p.name (waiting p),
            report.weighs,
            s.reported,
            s.dropped,
          );
          told =
              own_records-append lines_shown report.entries
              ∙ ap₂ ◌++◌ (own_records-own_lines (waiting p)) report.told
              ∙ append-nil (waiting p);
          lost = omega (
            arith,
            own_losses-append lines_shown report.entries,
            own_losses-own_lines (waiting p),
            report.lost,
            s.reported,
            s.dropped,
          );
        },
        record {
          sound = record {
            ring = vr;
            name = rw name h;
            reported = omega (arith, reported, dropped);
            dropped = omega (arith, dropped, s.dropped);
          };
          waits = left ∙ drop_of_le (limit p.phase) (waiting p) all;
          reported = reported ∙ sym dropped;
          name = name;
          phase = phase;
          told_phase = ap (λ (t : Phase × Bool). t.0) taken;
        },
      )
