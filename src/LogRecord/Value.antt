-- ===== src/LogRecord/Value.antt =====
-- The class `LogRecord`, its factories and its accessors.
use gamegine.Common.{ℕ, ◌-◌, ◌^◌, bit_and, bit_or, shl64, shr}
use gamegine.Error
use gamegine.Error.{Error}
use gamegine.LogMessage
use gamegine.LogMessage.{LogMessage}
use gamegine.LogRecord.Enums.{Severity, severity_to, severity_of, LogRecordType, type_to, type_of}

abbrev pub k_tick_bits : ℕ
k_tick_bits = 59

abbrev pub k_severity_shift : ℕ
k_severity_shift = 59

abbrev pub k_type_shift : ℕ
k_type_shift = 62

abbrev pub k_tick_mask : ℕ
k_tick_mask = 2 ^ 59 - 1

pub record LogRecord : Type 0 where
  pub header : ℕ
  pub payload : ℕ

unfoldable pub make_raw : LogRecordType → Severity → ℕ → ℕ → LogRecord
make_raw kind level tick payload =
    let high =
      bit_or (shl64 (type_to kind) k_type_shift) (shl64 (severity_to level) k_severity_shift) in
    record { header = bit_or high (bit_and tick k_tick_mask); payload = payload }

-- The two overloads of `make`.
unfoldable pub make_error : Severity → ℕ → Error → LogRecord
unfolding make_raw
make_error level tick e = make_raw LogRecordType.error level tick e.raw

unfoldable pub make_message : Severity → ℕ → LogMessage → LogRecord
unfolding make_raw
make_message level tick m = make_raw LogRecordType.message level tick m.raw

unfoldable pub record_type : LogRecord → LogRecordType
record_type r = type_of (shr r.header k_type_shift)

unfoldable pub severity : LogRecord → Severity
severity r = severity_of (bit_and (shr r.header k_severity_shift) 0x7)

unfoldable pub ticks : LogRecord → ℕ
ticks r = bit_and r.header k_tick_mask

-- Undefined in the source unless the record is of that type.
unfoldable pub error : LogRecord → Error
error r = Error.from_raw r.payload

unfoldable pub message : LogRecord → LogMessage
message r = LogMessage.from_raw r.payload
