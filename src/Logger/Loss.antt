-- ===== src/Logger/Loss.antt =====
-- The line that reports lost records, and the whole of `drain_one`.
use gamegine.Common.{
  ℕ, min, ap₂, ◌-◌, ◌≤◌, ◌<◌, ◌^◌, inl, inr, [], ◌∷◌, ◌++◌, ◌≡◌, ap, ◌∙◌, sym, arith, Text, codes,
  length, take, drop, ◌==◌, if◌then◌else◌, Bool-cases, length-append, length-drop, take_of_le,
  drop_of_le, append-nil, append_assoc, sub64,
}
use gamegine.Common.Int.{ℤ}
use gamegine.Clock.{TickConversion, ns_elapsed_since_start}
use gamegine.LineWriter
use gamegine.LineWriter.{LineWriter, append, append_char, append_decimal}
use gamegine.LineWriter.Decimal.{aligned, length-aligned, length-decimal}
use gamegine.LineWriter.Writes.{
  Writes, then-Writes, append-Writes, append_char-Writes, append_decimal-Writes,
}
use gamegine.LogRecord.{Severity}
use gamegine.LogFormat.{append_prefix, prefix_text, append_prefix-Writes}
use gamegine.LogFormat.Columns.{length-prefix_max, ns_elapsed-lt}
use gamegine.SpscRing.Valid
use gamegine.Logger.Output.{Output, make_room, write_loss}
use gamegine.Logger.Written
use gamegine.Logger.Written.{said, make_room-IsValid, write-IsValid}
use gamegine.Logger.Producer.{Producer, take_dropped, k_ring_bits}
use gamegine.Logger.Drain.{limit, pop_loop, drain_one}
use gamegine.Logger.Drained.{waiting, lines, pop_loop-Drained}

-- The report, at the time of `ns`.
abbrev pub loss_text : ℕ → Text → ℕ → Text
loss_text ns thread count =
    prefix_text ns Severity.warn (codes "logger")
    ++ ((b' ' ∷ [])
        ++ (thread ++ (codes " lost " ++ (aligned (ℤ.pos count) 0 b' ' ++ codes " records\n"))))

-- The appends of `write_loss`.
abbrev write_report : TickConversion → ℕ → Text → ℕ → LineWriter → LineWriter
write_report clock tick thread count w =
    append
      (append_decimal
        (append
          (append (append_char (append_prefix w tick Severity.warn (codes "logger") clock) b' ')
            thread)
          (codes " lost "))
        (ℤ.pos count) 0 b' ')
      (codes " records\n")

write_report-Writes :
    (clock : TickConversion) (tick : ℕ) (thread : Text) (count : ℕ)
    → Writes
        (write_report clock tick thread count)
        (loss_text (ns_elapsed_since_start clock tick) thread count)
write_report-Writes clock tick thread count =
    then-Writes (append_prefix-Writes tick Severity.warn (codes "logger") clock) (
      then-Writes (append_char-Writes b' ') (
        then-Writes (append-Writes thread) (
          then-Writes (append-Writes (codes " lost ")) (
            then-Writes (append_decimal-Writes (ℤ.pos count) 0 b' ' (omega arith))
              (append-Writes (codes " records\n"))))))

length-loss_text :
    (ns : ℕ) (thread : Text) (count : ℕ)
    → ns < 2 ^ 64
    → length thread ≤ 16
    → count < 2 ^ 64
    → length (loss_text ns thread count) ≤ 87
length-loss_text ns thread count hn ht hc =
    let number = aligned (ℤ.pos count) 0 b' ' in
    let front = prefix_text ns Severity.warn (codes "logger") in
    omega (
      arith,
      length-prefix_max ns Severity.warn (codes "logger") hn,
      length-append front
          ((b' ' ∷ []) ++ (thread ++ (codes " lost " ++ (number ++ codes " records\n")))),
      length-append thread (codes " lost " ++ (number ++ codes " records\n")),
      length-append number (codes " records\n"),
      length-aligned (ℤ.pos count) 0 b' ',
      length-decimal count 19 (omega arith),
    )

pub write_loss-said :
    (float_to_chars : ℕ → Text) (clock : TickConversion) (o : Output) (tick : ℕ) (thread : Text)
    (count : ℕ)
    → Written.IsValid o
    → length thread ≤ 16
    → count < 2 ^ 64
    → Written.IsValid (write_loss float_to_chars clock o tick thread count)
      × (said (write_loss float_to_chars clock o tick thread count)
          ≡ said o ++ loss_text (ns_elapsed_since_start clock tick) thread count)
unfolding write_loss
write_loss-said float_to_chars clock o tick thread count v ht hc =
    let (v1, same, fits) = make_room-IsValid o v in
    let o1 = make_room o in
    let text = loss_text (ns_elapsed_since_start clock tick) thread count in
    let free = drop o1.size o1.batch in
    let room = 65536 - o1.size in
    let all : length free ≤ room = omega (arith, length-drop o1.size o1.batch, v1.batch_size) in
    let (_, v2, e) =
      write-IsValid o1 (write_report clock tick thread count) text room v1
        (write_report-Writes clock tick thread count)
        (omega (
          arith,
          length-loss_text (ns_elapsed_since_start clock tick) thread count
              (ns_elapsed-lt clock tick) ht hc,
        ))
        (omega arith) in
    let tk : take room free ≡ free = take_of_le room free all in
    let dr : drop room free ≡ [] = drop_of_le room free all in
    let nil = append-nil (write_report clock tick thread count (LineWriter.make free)).buffer in
    (rw (tk, dr, nil) at v2, (rw (tk, dr, nil) at e) ∙ ap (λ t. t ++ text) same)

module _ (float_to_chars : ℕ → Text) (clock : TickConversion) where
  -- The report that a pass adds: none if nothing was dropped since the last.
  abbrev pub report : ℕ → Producer → Text
  report tick p =
      if sub64 p.dropped p.reported == 0
      then []
      else loss_text (ns_elapsed_since_start clock tick) p.name (sub64 p.dropped p.reported)

  -- Of a producer with a valid ring and a name of at most 16 characters, and while `write(2)` only takes
  -- characters or is interrupted, `drain_one` writes the lines of the oldest records, as many as the
  -- phase allows, and then the number of drops since the last report if there are any, leaves the other
  -- records in the ring and the drops reported, and tells the phase and whether the limit was met.
  pub drain_one_lem :
      (tick : ℕ) (p : Producer) (o : Output)
      → Valid.IsValid k_ring_bits p.ring
      → length p.name ≤ 16
      → Written.IsValid o
      → Written.IsValid (drain_one float_to_chars clock tick p o).2
        × (said (drain_one float_to_chars clock tick p o).2
            ≡ said o
              ++ (lines float_to_chars clock p.name (take (limit p.phase) (waiting p))
                  ++ report tick p))
        × (waiting (drain_one float_to_chars clock tick p o).1 ≡ drop (limit p.phase) (waiting p))
        × ((drain_one float_to_chars clock tick p o).1.reported ≡ p.dropped)
        × ((drain_one float_to_chars clock tick p o).0
            ≡ (p.phase, min (limit p.phase) (length (waiting p)) == limit p.phase))
  unfolding drain_one take_dropped
  drain_one_lem tick p o v hn vo =
      let d = pop_loop-Drained float_to_chars clock (limit p.phase) p o v vo in
      let (dropped, reported, _, _) = d.kept in
      let r = pop_loop float_to_chars clock (limit p.phase) p o in
      let count = sub64 p.dropped p.reported in
      let text = lines float_to_chars clock p.name (take (limit p.phase) (waiting p)) in
      let news : sub64 r.1.dropped r.1.reported ≡ count = ap₂ sub64 dropped reported in
      let taken = ap (λ (n : ℕ). (p.phase, n == limit p.phase)) d.counted in
      elim (Bool-cases (count == 0)) [
        | inl z ↦
            rw (news, z)
              (
                d.output_valid,
                d.wrote ∙ ap (λ t. said o ++ t) (sym (append-nil text)),
                d.left,
                dropped,
                taken,
              )
        | inr z ↦
            let (v2, e) =
              write_loss-said float_to_chars clock r.2 tick p.name count d.output_valid hn
                (omega arith) in
            let report_text = loss_text (ns_elapsed_since_start clock tick) p.name count in
            rw (news, z)
              (
                v2,
                e ∙ ap (λ t. t ++ report_text) d.wrote ∙ append_assoc (said o) text report_text,
                d.left,
                dropped,
                taken,
              )
      ]

  -- What `drain_one` leaves of the producer besides its records.
  pub drain_one-kept :
      (tick : ℕ) (p : Producer) (o : Output)
      → Valid.IsValid k_ring_bits p.ring
      → Written.IsValid o
      → Valid.IsValid k_ring_bits (drain_one float_to_chars clock tick p o).1.ring
        × ((drain_one float_to_chars clock tick p o).1.dropped ≡ p.dropped)
        × ((drain_one float_to_chars clock tick p o).1.name ≡ p.name)
        × ((drain_one float_to_chars clock tick p o).1.phase ≡ p.phase)
  unfolding drain_one take_dropped
  drain_one-kept tick p o v vo =
      let d = pop_loop-Drained float_to_chars clock (limit p.phase) p o v vo in
      (d.ring_valid, d.kept.0, d.kept.2, d.kept.3)
