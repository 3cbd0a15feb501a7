-- ===== src/Tests/Words.antt =====
-- Errors, messages, records and ticks.
use gamegine.Common.{some, ◌+◌, ◌-◌, ◌*◌, ◌/◌, ◌%◌, ◌^◌, ◌≡◌, refl, arith}
use gamegine.Common.Int.{ℤ}
use gamegine.Domain.{Domain}
use gamegine.Error
use gamegine.Error.{
  Error, Kind, CoreReason, VulkanReason, MetalReason, core_traits, vulkan_traits, metal_traits,
}
use gamegine.Error.Fields.{fields-make, signed_context-make}
use gamegine.ErrorCatalog
use gamegine.ErrorCatalog.{named, make-named}
use gamegine.LogMessage
use gamegine.LogMessage.{LogMessage}
use gamegine.LogMessage.Value.{pack}
use gamegine.LogMessage.Fields.{fields-pack}
use gamegine.LogRecord
use gamegine.LogRecord.{LogRecord, LogRecordType, Severity}
use gamegine.LogRecord.Fields.{fields-make_error, fields-make_message}
use gamegine.Clock.Platforms.{mach, now_of, start_now_of, start_now_of_lem}
use gamegine.Clock.{TickConversion, ns_elapsed_since_start}
use gamegine.Clock.Conversion.{IsConversion, ns_elapsed_since_start_lem}

abbrev too_many : Error
too_many = Error.make Kind.exhausted CoreReason.log_too_many_threads 32

too_many-raw : too_many.raw ≡ 0x20_0001_0101
unfolding Error.make
too_many-raw = refl

fields-make_example :
    (Error.domain too_many ≡ Domain.core)
    × (Error.kind too_many ≡ Kind.exhausted)
    × (Error.reason_as too_many ≡ CoreReason.log_too_many_threads)
    × (Error.context too_many ≡ 32)
fields-make_example =
    fields-make Kind.exhausted CoreReason.log_too_many_threads 32 (omega arith) (omega arith)
      (omega arith) (omega arith)

signed_context-make_example :
    Error.signed_context
      (Error.make_with_signed_context Kind.unknown VulkanReason.unknown (ℤ.negsuc 3))
    ≡ ℤ.negsuc 3
signed_context-make_example =
    signed_context-make Kind.unknown VulkanReason.unknown (ℤ.negsuc 3) (omega arith) (omega arith)
      (omega arith) (omega arith)

make-named_example :
    (ErrorCatalog.make too_many ≡ named Kind.exhausted CoreReason.log_too_many_threads)
    × (ErrorCatalog.make (Error.make Kind.exhausted VulkanReason.unknown 32)
        ≡ named Kind.exhausted VulkanReason.unknown)
    × (ErrorCatalog.make (Error.make Kind.exhausted MetalReason.unknown 32)
        ≡ named Kind.exhausted MetalReason.unknown)
make-named_example =
    make-named Kind.exhausted 32 CoreReason.log_too_many_threads VulkanReason.unknown
      MetalReason.unknown (omega arith) (omega arith) (omega arith) (omega arith) (omega arith)

fields-pack_example :
    (LogMessage.domain (pack Domain.metal 5 0xDEADBEEF) ≡ Domain.metal)
    × (LogMessage.id (pack Domain.metal 5 0xDEADBEEF) ≡ 5)
    × (LogMessage.argument (pack Domain.metal 5 0xDEADBEEF) ≡ 0xDEADBEEF)
fields-pack_example =
    fields-pack Domain.metal 5 0xDEADBEEF (omega arith) (omega arith) (omega arith)

fields-make_error_example :
    (LogRecord.record_type (LogRecord.make_error Severity.warn (2 ^ 59 + 12) too_many)
      ≡ LogRecordType.error)
    × (LogRecord.severity (LogRecord.make_error Severity.warn (2 ^ 59 + 12) too_many)
        ≡ Severity.warn)
    × (LogRecord.ticks (LogRecord.make_error Severity.warn (2 ^ 59 + 12) too_many)
        ≡ (2 ^ 59 + 12) % 2 ^ 59)
    × (LogRecord.error (LogRecord.make_error Severity.warn (2 ^ 59 + 12) too_many) ≡ too_many)
fields-make_error_example = fields-make_error Severity.warn (2 ^ 59 + 12) too_many (omega arith)

fields-make_message_example :
    (LogRecord.record_type (LogRecord.make_message Severity.fatal 12 (pack Domain.core 0 1))
      ≡ LogRecordType.message)
    × (LogRecord.severity (LogRecord.make_message Severity.fatal 12 (pack Domain.core 0 1))
        ≡ Severity.fatal)
    × (LogRecord.ticks (LogRecord.make_message Severity.fatal 12 (pack Domain.core 0 1))
        ≡ 12 % 2 ^ 59)
    × (LogRecord.message (LogRecord.make_message Severity.fatal 12 (pack Domain.core 0 1))
        ≡ pack Domain.core 0 1)
fields-make_message_example =
    fields-make_message Severity.fatal 12 (pack Domain.core 0 1) (omega arith)

-- A clock of 24 MHz, as on Apple's processors.
abbrev mhz_24 : TickConversion
mhz_24 = record { start = 1000; num = 125; denom = 3 }

mhz_24-IsConversion : IsConversion mhz_24
mhz_24-IsConversion = record {
  start_fits = omega arith;
  num_fits = omega arith;
  denom_fits = omega arith;
  denom_pos = omega arith;
}

one_second : ns_elapsed_since_start mhz_24 24_001_000 ≡ 1_000_000_000
unfolding ns_elapsed_since_start
one_second = refl

ns_elapsed_since_start_lem_example :
    ns_elapsed_since_start mhz_24 24_001_001 ≡ (24_001_001 - 1000) * 125 / 3
ns_elapsed_since_start_lem_example =
    ns_elapsed_since_start_lem mhz_24 24_001_001 mhz_24-IsConversion (omega arith) (omega arith)

-- A Mac whose ticks are 125/3 nanoseconds.
start_now_of_lem_example :
    (c : TickConversion) × (start_now_of (mach 1000 125 3) ≡ some c)
    × (ns_elapsed_since_start c 24_001_001 ≡ (24_001_001 - 1000) * 125 / 3)
unfolding now_of
start_now_of_lem_example =
    start_now_of_lem (mach 1000 125 3) 24_001_001
      (omega arith, omega arith, omega arith, omega arith) (omega arith) (omega arith)
