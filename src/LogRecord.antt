-- ===== src/LogRecord.antt =====
-- gamegine/include/engine/core/core_log_record.h: the two words that the logger moves.
pub mod Enums
pub mod Value
pub mod Fields
unfoldable pub use Enums.{severity_to, severity_of, type_to, type_of}
pub use Enums.{Severity, LogRecordType}
pub use Value.{LogRecord}
unfoldable pub use Value.{make_error, make_message}
unfoldable pub use Value.{record_type, severity, ticks, error, message}
