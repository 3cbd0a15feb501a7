-- ===== src/LogFormat/Columns.antt =====
-- How wide the columns of a line are, and that no line is cut.
use gamegine.Common.{
  ℕ, suc, ◌+◌, ◌-◌, ◌/◌, ◌%◌, ◌≤◌, ◌<◌, ◌^◌, max, false, inl, inr, [], ◌∷◌, ◌++◌, ◌≡◌, Text, length,
  length-append, length-replicate, length-take, take, replicate, Bool-cases, arith, leb, add64,
}
use gamegine.Common.Int.{ℤ}
use gamegine.Clock.{TickConversion, ns_elapsed_since_start}
use gamegine.LogRecord
use gamegine.LogRecord.{LogRecord, LogRecordType, Severity}
use gamegine.ErrorFormat
use gamegine.ErrorFormat.{length-error_text}
use gamegine.LogMessageFormat
use gamegine.LogMessageFormat.{length-message_text}
use gamegine.LineWriter
use gamegine.LineWriter.{LineWriter, decimal, view}
use gamegine.LineWriter.Pads.{padded, fitted}
use gamegine.LineWriter.Decimal.{aligned, length-aligned, length-decimal}
use gamegine.LineWriter.Writes.{make-Writes}
use gamegine.LogFormat.{
  k_max_line_size, severity_name, append_record, timestamp_text, prefix_text, payload_text,
  line_text, append_record-Writes,
}

length-severity_name : (s : Severity) → length (severity_name s) ≤ 5
unfolding severity_name
length-severity_name Severity.trace = omega arith
length-severity_name Severity.debug = omega arith
length-severity_name Severity.info = omega arith
length-severity_name Severity.warn = omega arith
length-severity_name Severity.error = omega arith
length-severity_name Severity.fatal = omega arith
length-severity_name Severity.count = omega arith
length-severity_name (Severity.unnamed n) = ground arith

length-padded : (t : Text) (width c : ℕ) → length (padded t width c) ≡ max width (length t)
length-padded t width c =
    omega (
      arith,
      length-append t (replicate (width - length t) c),
      length-replicate (width - length t) c,
    )

length-fitted : (t : Text) (width c : ℕ) → length (fitted t width c) ≡ width
length-fitted t width c = omega (arith, length-padded (take width t) width c, length-take width t)

micros : (ns : ℕ) → ns % 1_000_000_000 / 1000 < 10 ^ 6
micros ns = omega arith

length-timestamp_text :
    (ns k : ℕ) → ns / 1_000_000_000 < 10 ^ suc k → length (timestamp_text ns) ≤ 9 + max 4 (suc k)
length-timestamp_text ns k h =
    let sec = aligned (ℤ.pos (ns / 1_000_000_000)) 4 b' ' in
    let us = aligned (ℤ.pos (ns % 1_000_000_000 / 1000)) 6 b'0' in
    omega (
      arith,
      length-append sec ((b'.' ∷ []) ++ (us ++ (b']' ∷ []))),
      length-append us (b']' ∷ []),
      length-aligned (ℤ.pos (ns / 1_000_000_000)) 4 b' ',
      length-aligned (ℤ.pos (ns % 1_000_000_000 / 1000)) 6 b'0',
      length-decimal (ns / 1_000_000_000) k h,
      length-decimal (ns % 1_000_000_000 / 1000) 5 (micros ns),
    )

length-timestamp_min : (ns : ℕ) → 13 ≤ length (timestamp_text ns)
length-timestamp_min ns =
    let sec = aligned (ℤ.pos (ns / 1_000_000_000)) 4 b' ' in
    let us = aligned (ℤ.pos (ns % 1_000_000_000 / 1000)) 6 b'0' in
    omega (
      arith,
      length-append sec ((b'.' ∷ []) ++ (us ++ (b']' ∷ []))),
      length-append us (b']' ∷ []),
      length-aligned (ℤ.pos (ns / 1_000_000_000)) 4 b' ',
      length-aligned (ℤ.pos (ns % 1_000_000_000 / 1000)) 6 b'0',
    )

length-prefix :
    (ns : ℕ) (severity : Severity) (thread : Text)
    → length (prefix_text ns severity thread) ≡ length (timestamp_text ns) + 15
length-prefix ns severity thread =
    let name = padded (severity_name severity) 5 b' ' in
    let column = fitted thread 8 b' ' in
    omega (
      arith,
      length-append (timestamp_text ns) ((b' ' ∷ []) ++ (name ++ ((b' ' ∷ []) ++ column))),
      length-append name ((b' ' ∷ []) ++ column),
      length-padded (severity_name severity) 5 b' ',
      length-severity_name severity,
      length-fitted thread 8 b' ',
    )

-- For a time below 10000 seconds, what stands before a line's message is 28 characters wide,
-- whatever the severity and the thread's name.
length-prefix_text :
    (ns : ℕ) (severity : Severity) (thread : Text)
    → ns < 10_000_000_000_000
    → length (prefix_text ns severity thread) ≡ 28
length-prefix_text ns severity thread h = omega (
  arith,
  length-prefix ns severity thread,
  length-timestamp_min ns,
  length-timestamp_text ns 3 (omega arith),
)

pub ns_elapsed-lt :
    (clock : TickConversion) (ticks : ℕ) → ns_elapsed_since_start clock ticks < 2 ^ 64
unfolding ns_elapsed_since_start
ns_elapsed-lt clock ticks = elim (Bool-cases (leb ticks clock.start)) [
  | inl e ↦ rw e (omega arith)
  | inr e ↦ rw e (sum_fits _ _)
]
  where
    sum_fits : (a b : ℕ) → add64 a b < 2 ^ 64
    sum_fits a b = omega arith

-- At any time of 64 bits it is at most 35 characters wide.
pub length-prefix_max :
    (ns : ℕ) (severity : Severity) (thread : Text)
    → ns < 2 ^ 64
    → length (prefix_text ns severity thread) ≤ 35
length-prefix_max ns severity thread h =
    omega (arith, length-prefix ns severity thread, length-timestamp_text ns 10 (omega arith))

module _ (float_to_chars : ℕ → Text) where
  length-payload :
      (k : LogRecordType) (r : LogRecord) → length (payload_text float_to_chars k r) ≤ 110
  length-payload LogRecordType.error r =
      length-error_text (LogRecord.error r) ErrorFormat.RawValue.omit
  length-payload LogRecordType.message r = omega (
    arith,
    length-message_text float_to_chars (LogRecord.message r) LogMessageFormat.RawValue.omit,
  )
  length-payload LogRecordType.count r = omega arith
  length-payload (LogRecordType.unnamed n) r = omega arith

  length-line_text :
      (r : LogRecord) (thread : Text) (clock : TickConversion)
      → ns_elapsed_since_start clock (LogRecord.ticks r) < 2 ^ 64
      → length (line_text float_to_chars r thread clock) ≤ 147
  length-line_text r thread clock h =
      let ns = ns_elapsed_since_start clock (LogRecord.ticks r) in
      let front = prefix_text ns (LogRecord.severity r) thread in
      let payload = payload_text float_to_chars (LogRecord.record_type r) r in
      omega (
        arith,
        length-prefix ns (LogRecord.severity r) thread,
        length-timestamp_text ns 10 (omega arith),
        length-append front ((b' ' ∷ []) ++ (payload ++ (b'\n' ∷ []))),
        length-append payload (b'\n' ∷ []),
        length-payload (LogRecord.record_type r) r,
      )

  pub length-line :
      (r : LogRecord) (thread : Text) (clock : TickConversion)
      → length (line_text float_to_chars r thread clock) ≤ 147
  length-line r thread clock =
      length-line_text r thread clock (ns_elapsed-lt clock (LogRecord.ticks r))

  -- An empty buffer of at least `k_max_line_size` characters takes the whole line of every record,
  -- whatever its words hold and whatever the thread is called: the line is shown and nothing is
  -- cut.
  pub append_record_whole :
      (buffer : Text) (r : LogRecord) (thread : Text) (clock : TickConversion)
      → k_max_line_size ≤ length buffer
      → length buffer < 2 ^ 64
      → (view (append_record float_to_chars (LineWriter.make buffer) r thread clock)
          ≡ line_text float_to_chars r thread clock)
        × ((append_record float_to_chars (LineWriter.make buffer) r thread clock).truncated ≡ false)
  append_record_whole buffer r thread clock h a =
      let short = length-line r thread clock in
      let (_, shown, uncut) =
        make-Writes buffer (append_record-Writes float_to_chars r thread clock)
          (omega (arith, short)) a in
      (shown, uncut)
