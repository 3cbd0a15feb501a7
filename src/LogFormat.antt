-- ===== src/LogFormat.antt =====
-- gamegine/include/engine/core/core_log_format.h: a complete log record as a line.
pub mod Columns
pub mod OneLine
use gamegine.Common.{
  ℕ, zero, suc, ◌+◌, ◌-◌, ◌/◌, ◌%◌, ◌≤◌, ◌<◌, ◌^◌, min, max, true, false, inl, inr, List, [], ◌∷◌,
  ◌++◌, ◌≡◌, refl, ◌∙◌, ap, Text, codes, length, length-append, length-replicate, length-take,
  get_or, take, replicate, ltb, if◌then◌else◌, Bool-cases, arith,
}
use gamegine.Common.Int.{ℤ}
use gamegine.Clock.{TickConversion, ns_elapsed_since_start}
use gamegine.LogRecord
use gamegine.LogRecord.{LogRecord, LogRecordType, Severity, severity_to}
use gamegine.ErrorFormat
use gamegine.ErrorFormat.{append_error, error_text, append_error-Writes, length-error_text}
use gamegine.LogMessageFormat
use gamegine.LogMessageFormat.{
  append_message, message_text, append_message-Writes, length-message_text,
}
use gamegine.LineWriter.{LineWriter, append_char, append_decimal, append_padded, append_fitted}
use gamegine.LineWriter.Pads.{padded, fitted}
use gamegine.LineWriter.Decimal.{aligned, length-aligned, length-decimal}
use gamegine.LineWriter.Writes.{
  Writes, then-Writes, append_char-Writes, append_decimal-Writes, append_padded-Writes,
  append_fitted-Writes,
}

abbrev pub k_severity_width : ℕ
k_severity_width = 5

abbrev pub k_thread_width : ℕ
k_thread_width = 8

abbrev pub k_max_line_size : ℕ
k_max_line_size = 512

abbrev pub k_names : List Text
k_names =
    codes "TRACE" ∷ codes "DEBUG" ∷ codes "INFO" ∷ codes "WARN" ∷ codes "ERROR" ∷ codes "FATAL" ∷ []

unfoldable pub severity_name : Severity → Text
severity_name s =
    let index = severity_to s in
    if ltb index (length k_names) then get_or k_names index (codes "?") else codes "?"

unfoldable pub append_timestamp : LineWriter → ℕ → TickConversion → LineWriter
append_timestamp w0 ticks clock =
    let timestamp = ns_elapsed_since_start clock ticks in
    let w1 = append_char w0 b'[' in
    let w2 = append_decimal w1 (ℤ.pos (timestamp / 1_000_000_000)) 4 b' ' in
    let w3 = append_char w2 b'.' in
    let w4 = append_decimal w3 (ℤ.pos (timestamp % 1_000_000_000 / 1000)) 6 b'0' in
    append_char w4 b']'

unfoldable pub append_prefix : LineWriter → ℕ → Severity → Text → TickConversion → LineWriter
unfolding append_timestamp severity_name
append_prefix w0 ticks severity thread clock =
    let w1 = append_timestamp w0 ticks clock in
    let w2 = append_char w1 b' ' in
    let w3 = append_padded w2 (severity_name severity) k_severity_width b' ' in
    let w4 = append_char w3 b' ' in append_fitted w4 thread k_thread_width b' '

module _ (float_to_chars : ℕ → Text) where
  -- The payload that each type of record supplies.
  abbrev append_payload : LogRecordType → LineWriter → LogRecord → LineWriter
  append_payload LogRecordType.error w r =
      append_error w (LogRecord.error r) ErrorFormat.RawValue.omit
  append_payload LogRecordType.message w r =
      append_message float_to_chars w (LogRecord.message r) LogMessageFormat.RawValue.omit
  append_payload _ w r = append_char w b'?'

  unfoldable pub append_record : LineWriter → LogRecord → Text → TickConversion → LineWriter
  unfolding append_prefix
  append_record w0 r thread clock =
      let w1 = append_prefix w0 (LogRecord.ticks r) (LogRecord.severity r) thread clock in
      let w2 = append_char w1 b' ' in
      let w3 = append_payload (LogRecord.record_type r) w2 r in append_char w3 b'\n'

-- The columns of a line.
abbrev pub timestamp_text : ℕ → Text
timestamp_text ns =
    (b'[' ∷ [])
    ++ (aligned (ℤ.pos (ns / 1_000_000_000)) 4 b' '
        ++ ((b'.' ∷ []) ++ (aligned (ℤ.pos (ns % 1_000_000_000 / 1000)) 6 b'0' ++ (b']' ∷ []))))

abbrev pub prefix_text : ℕ → Severity → Text → Text
prefix_text ns severity thread =
    timestamp_text ns
    ++ ((b' ' ∷ [])
        ++ (padded (severity_name severity) k_severity_width b' '
            ++ ((b' ' ∷ []) ++ fitted thread k_thread_width b' ')))

append_timestamp-Writes :
    (ticks : ℕ) (clock : TickConversion)
    → Writes
        (λ w. append_timestamp w ticks clock)
        (timestamp_text (ns_elapsed_since_start clock ticks))
unfolding append_timestamp
append_timestamp-Writes ticks clock =
    let ns = ns_elapsed_since_start clock ticks in
    then-Writes (append_char-Writes b'[') (
      then-Writes (append_decimal-Writes (ℤ.pos (ns / 1_000_000_000)) 4 b' ' (omega arith)) (
        then-Writes (append_char-Writes b'.') (
          then-Writes
            (append_decimal-Writes (ℤ.pos (ns % 1_000_000_000 / 1000)) 6 b'0' (omega arith))
            (append_char-Writes b']'))))

-- `append_prefix` writes the three columns, whatever the thread is called.
pub append_prefix-Writes :
    (ticks : ℕ) (severity : Severity) (thread : Text) (clock : TickConversion)
    → Writes
        (λ w. append_prefix w ticks severity thread clock)
        (prefix_text (ns_elapsed_since_start clock ticks) severity thread)
unfolding append_prefix
append_prefix-Writes ticks severity thread clock =
    then-Writes (append_timestamp-Writes ticks clock) (
      then-Writes (append_char-Writes b' ') (
        then-Writes
          (append_padded-Writes (severity_name severity) k_severity_width b' ' (omega arith))
          (then-Writes (append_char-Writes b' ')
            (append_fitted-Writes thread k_thread_width b' ' (omega arith)))))

module _ (float_to_chars : ℕ → Text) where
  abbrev pub payload_text : LogRecordType → LogRecord → Text
  payload_text LogRecordType.error r = error_text (LogRecord.error r) ErrorFormat.RawValue.omit
  payload_text LogRecordType.message r =
      message_text float_to_chars (LogRecord.message r) LogMessageFormat.RawValue.omit
  payload_text _ r = codes "?"

  abbrev pub line_text : LogRecord → Text → TickConversion → Text
  line_text r thread clock =
      prefix_text (ns_elapsed_since_start clock (LogRecord.ticks r)) (LogRecord.severity r) thread
      ++ ((b' ' ∷ []) ++ (payload_text (LogRecord.record_type r) r ++ (b'\n' ∷ [])))

  append_payload-Writes :
      (k : LogRecordType) (r : LogRecord)
      → Writes (λ w. append_payload float_to_chars k w r) (payload_text k r)
  append_payload-Writes LogRecordType.error r =
      append_error-Writes (LogRecord.error r) ErrorFormat.RawValue.omit
  append_payload-Writes LogRecordType.message r =
      append_message-Writes float_to_chars (LogRecord.message r) LogMessageFormat.RawValue.omit
  append_payload-Writes LogRecordType.count r = append_char-Writes b'?'
  append_payload-Writes (LogRecordType.unnamed n) r = append_char-Writes b'?'

  pub append_record-Writes :
      (r : LogRecord) (thread : Text) (clock : TickConversion)
      → Writes (λ w. append_record float_to_chars w r thread clock) (line_text r thread clock)
  unfolding append_record
  append_record-Writes r thread clock =
      then-Writes (append_prefix-Writes (LogRecord.ticks r) (LogRecord.severity r) thread clock) (
        then-Writes (append_char-Writes b' ') (
          then-Writes (append_payload-Writes (LogRecord.record_type r) r)
            (append_char-Writes b'\n')))
