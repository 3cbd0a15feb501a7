-- ===== src/LogRecord/Enums.antt =====
-- `Severity` and `LogRecordType`, as their values.
use gamegine.Common.{ℕ, zero, suc, ◌≡◌, refl}

-- `unnamed n` is the value `n + 7`.
pub data Severity : Type 0 where
  trace debug info warn error fatal count : Severity
  unnamed : ℕ → Severity

abbrev pub severity_to : Severity → ℕ
severity_to Severity.trace = 0
severity_to Severity.debug = 1
severity_to Severity.info = 2
severity_to Severity.warn = 3
severity_to Severity.error = 4
severity_to Severity.fatal = 5
severity_to Severity.count = 6
severity_to (Severity.unnamed n) = suc (suc (suc (suc (suc (suc (suc n))))))

abbrev pub severity_of : ℕ → Severity
severity_of zero = Severity.trace
severity_of (suc zero) = Severity.debug
severity_of (suc (suc zero)) = Severity.info
severity_of (suc (suc (suc zero))) = Severity.warn
severity_of (suc (suc (suc (suc zero)))) = Severity.error
severity_of (suc (suc (suc (suc (suc zero))))) = Severity.fatal
severity_of (suc (suc (suc (suc (suc (suc zero)))))) = Severity.count
severity_of (suc (suc (suc (suc (suc (suc (suc n))))))) = Severity.unnamed n

pub severity_of-to : (s : Severity) → severity_of (severity_to s) ≡ s
severity_of-to Severity.trace = refl
severity_of-to _ = refl

-- `unnamed n` is the value `n + 3`.
pub data LogRecordType : Type 0 where
  error message count : LogRecordType
  unnamed : ℕ → LogRecordType

abbrev pub type_to : LogRecordType → ℕ
type_to LogRecordType.error = 0
type_to LogRecordType.message = 1
type_to LogRecordType.count = 2
type_to (LogRecordType.unnamed n) = suc (suc (suc n))

abbrev pub type_of : ℕ → LogRecordType
type_of zero = LogRecordType.error
type_of (suc zero) = LogRecordType.message
type_of (suc (suc zero)) = LogRecordType.count
type_of (suc (suc (suc n))) = LogRecordType.unnamed n

pub type_of-to : (t : LogRecordType) → type_of (type_to t) ≡ t
type_of-to LogRecordType.error = refl
type_of-to _ = refl
