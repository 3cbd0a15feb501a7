-- ===== src/LogRecord/Fields.antt =====
-- What is packed into a record is what its accessors read, but for the tick's bits past 59.
use gamegine.Common.{
  ℕ, ◌+◌, ◌*◌, ◌%◌, ◌^◌, ◌<◌, ◌≡◌, refl, ap, ◌∙◌, arith, bit_or, shr, shl64-eq_of_lt,
}
use gamegine.Common.Bits.{bit_or_high, bit_and_mask}
use gamegine.Error
use gamegine.Error.{Error}
use gamegine.LogMessage
use gamegine.LogMessage.{LogMessage}
use gamegine.LogRecord.Enums.{
  Severity, severity_to, severity_of, severity_of-to, LogRecordType, type_to, type_of, type_of-to,
}
use gamegine.LogRecord.Value.{
  make_raw, make_error, make_message, record_type, severity, ticks, error, message,
}

module _ (kind : LogRecordType) (level : Severity) (tick payload : ℕ) (hk : type_to kind < 4)
    (hl : severity_to level < 8) where
  header-make_raw :
      (make_raw kind level tick payload).header
      ≡ (type_to kind * 8 + severity_to level) * 2 ^ 59 + tick % 2 ^ 59
  unfolding make_raw
  header-make_raw =
      rw
        (
          shl64-eq_of_lt (type_to kind) 62 (omega arith),
          shl64-eq_of_lt (severity_to level) 59 (omega arith),
          bit_and_mask 59 tick,
        )
        (ap (λ (x : ℕ). bit_or x (tick % 2 ^ 59))
            (bit_or_high 62 (type_to kind) (severity_to level * 2 ^ 59) (omega arith) ∙ omega arith)
          ∙ bit_or_high 59 (type_to kind * 8 + severity_to level) (tick % 2 ^ 59) (omega arith))

  -- A record's type, severity and tick are read back, the tick modulo 2 ^ 59.
  pub fields-make_raw :
      (record_type (make_raw kind level tick payload) ≡ kind)
      × (severity (make_raw kind level tick payload) ≡ level)
      × (ticks (make_raw kind level tick payload) ≡ tick % 2 ^ 59)
  unfolding record_type severity ticks
  fields-make_raw =
      let r = make_raw kind level tick payload in
      (
        ap type_of (omega (arith, header-make_raw)) ∙ type_of-to kind,
        ap severity_of (bit_and_mask 3 (shr r.header 59) ∙ omega (arith, header-make_raw))
            ∙ severity_of-to level,
        bit_and_mask 59 r.header ∙ omega (arith, header-make_raw),
      )

-- A record made of an error, with a severity of at most three bits, is of the error type and gives
-- back the severity, the error itself and the tick modulo 2 ^ 59.
pub fields-make_error :
    (level : Severity) (tick : ℕ) (e : Error)
    → severity_to level < 8
    → (record_type (make_error level tick e) ≡ LogRecordType.error)
      × (severity (make_error level tick e) ≡ level)
      × (ticks (make_error level tick e) ≡ tick % 2 ^ 59)
      × (error (make_error level tick e) ≡ e)
unfolding make_error error Error.from_raw
fields-make_error level tick e h =
    let (kind_is, level_is, tick_is) =
      fields-make_raw LogRecordType.error level tick e.raw (omega arith) h in
    (kind_is, level_is, tick_is, unfold make_raw in refl)

-- A record made of a message, with a severity of at most three bits, is of the message type and
-- gives back the severity, the message itself and the tick modulo 2 ^ 59.
pub fields-make_message :
    (level : Severity) (tick : ℕ) (m : LogMessage)
    → severity_to level < 8
    → (record_type (make_message level tick m) ≡ LogRecordType.message)
      × (severity (make_message level tick m) ≡ level)
      × (ticks (make_message level tick m) ≡ tick % 2 ^ 59)
      × (message (make_message level tick m) ≡ m)
unfolding make_message message LogMessage.from_raw
fields-make_message level tick m h =
    let (kind_is, level_is, tick_is) =
      fields-make_raw LogRecordType.message level tick m.raw (omega arith) h in
    (kind_is, level_is, tick_is, unfold make_raw in refl)
