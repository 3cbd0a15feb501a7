-- ===== src/LogMessageFormat.antt =====
-- gamegine/include/engine/core/core_log_message_format.h: a message as a line of text.
pub mod Formatter
use gamegine.Common.{
  ℕ, ◌≤◌, ◌<◌, ◌^◌, [], ◌++◌, ◌≡◌, ap, Text, codes, length, length-append, take, arith,
}
use gamegine.Common.Int.{ℤ, of_bits32}
use gamegine.LogMessage
use gamegine.LogMessage.{LogMessage, Argument}
use gamegine.LogMessageCatalog
use gamegine.LogMessageCatalog.{LogMessageText}
use gamegine.LogMessageCatalog.Texts.{text_of-IsPlain, length-name}
use gamegine.LineWriter
use gamegine.LineWriter.{
  LineWriter, append, append_char, append_hex, append_decimal, append_float, view,
}
use gamegine.LineWriter.Hex.{hex_text, hex_text_lem}
use gamegine.LineWriter.Decimal.{aligned}
use gamegine.LineWriter.Writes.{
  Writes, then-Writes, nothing-Writes, append-Writes, append_char-Writes, append_hex-Writes,
  append_decimal-Writes, append_float-Writes, make-Writes,
}

pub data RawValue : Type 0 where
  omit append_raw : RawValue

abbrev pub k_separator : Text
k_separator = codes " | "

abbrev pub k_max_line_size : ℕ
k_max_line_size = 256

-- `float_to_chars` is `std::to_chars` of a float, given as its bits.
module _ (float_to_chars : ℕ → Text) where
  -- The switch over the argument.
  abbrev append_argument : Argument → LineWriter → ℕ → LineWriter
  append_argument Argument.none w a = w
  append_argument Argument.unsigned w a = append_decimal w (ℤ.pos a) 0 b' '
  append_argument Argument.signed w a = append_decimal w (of_bits32 a) 0 b' '
  append_argument Argument.hex w a = append_hex 8 (append w (codes "0x")) a
  append_argument Argument.float w a = append_float float_to_chars w a
  append_argument Argument.count w a = append_char w b'?'
  append_argument (Argument.unnamed n) w a = w

  unfoldable pub append_text : LineWriter → LogMessageText → ℕ → LineWriter
  append_text w t a = append (append_argument t.argument (append w t.prefix) a) t.suffix

  abbrev append_raw_value : RawValue → LineWriter → LogMessage → LineWriter
  append_raw_value RawValue.omit w m = w
  append_raw_value RawValue.append_raw w m = append_hex 16 (append w (codes " <=> raw=0x")) m.raw

  unfoldable pub append_message : LineWriter → LogMessage → RawValue → LineWriter
  unfolding append_text
  append_message w0 m raw =
      let w1 = append w0 (LogMessageCatalog.to_string_domain (LogMessage.domain m)) in
      let w2 = append w1 k_separator in
      let w3 = append_text w2 (LogMessageCatalog.text_of m) (LogMessage.argument m) in
      append_raw_value raw w3 m

  -- The number of characters written, and the caller's buffer.
  unfoldable pub format_line : Text → LogMessage → RawValue → ℕ × Text
  format_line buffer m raw =
      let w = append_message (LineWriter.make buffer) m raw in (w.size, w.buffer)

  -- The layout of a line: what each kind of argument reads as.
  abbrev pub argument_text : Argument → ℕ → Text
  argument_text Argument.none a = []
  argument_text Argument.unsigned a = aligned (ℤ.pos a) 0 b' '
  argument_text Argument.signed a = aligned (of_bits32 a) 0 b' '
  argument_text Argument.hex a = codes "0x" ++ hex_text 8 a
  argument_text Argument.float a = float_to_chars a
  argument_text Argument.count a = codes "?"
  argument_text (Argument.unnamed n) a = []

  abbrev pub filled_text : LogMessageText → ℕ → Text
  filled_text t a = t.prefix ++ (argument_text t.argument a ++ t.suffix)

  abbrev pub raw_text : RawValue → LogMessage → Text
  raw_text RawValue.omit m = []
  raw_text RawValue.append_raw m = codes " <=> raw=0x" ++ hex_text 16 m.raw

  abbrev pub message_text : LogMessage → RawValue → Text
  message_text m raw =
      LogMessageCatalog.to_string_domain (LogMessage.domain m)
      ++ (k_separator
          ++ (filled_text (LogMessageCatalog.text_of m) (LogMessage.argument m) ++ raw_text raw m))

  append_argument-Writes :
      (g : Argument) (a : ℕ) → Writes (λ w. append_argument g w a) (argument_text g a)
  append_argument-Writes Argument.none a = nothing-Writes
  append_argument-Writes Argument.unsigned a = append_decimal-Writes (ℤ.pos a) 0 b' ' (omega arith)
  append_argument-Writes Argument.signed a =
      append_decimal-Writes (of_bits32 a) 0 b' ' (omega arith)
  append_argument-Writes Argument.hex a =
      then-Writes (append-Writes (codes "0x")) (append_hex-Writes 8 a)
  append_argument-Writes Argument.float a = append_float-Writes float_to_chars a
  append_argument-Writes Argument.count a = append_char-Writes b'?'
  append_argument-Writes (Argument.unnamed n) a = nothing-Writes

  -- `append_text` writes the text with its argument, as the argument's kind says, in the placeholder's
  -- place.
  pub append_text-Writes :
      (t : LogMessageText) (a : ℕ) → Writes (λ w. append_text w t a) (filled_text t a)
  unfolding append_text
  append_text-Writes t a =
      then-Writes (append-Writes t.prefix)
        (then-Writes (append_argument-Writes t.argument a) (append-Writes t.suffix))

  append_raw_value-Writes :
      (raw : RawValue) (m : LogMessage) → Writes (λ w. append_raw_value raw w m) (raw_text raw m)
  append_raw_value-Writes RawValue.omit m = nothing-Writes
  append_raw_value-Writes RawValue.append_raw m =
      then-Writes (append-Writes (codes " <=> raw=0x")) (append_hex-Writes 16 m.raw)

  -- `append_message` writes the line of the message.
  pub append_message-Writes :
      (m : LogMessage) (raw : RawValue) → Writes (λ w. append_message w m raw) (message_text m raw)
  unfolding append_message
  append_message-Writes m raw =
      then-Writes (append-Writes (LogMessageCatalog.to_string_domain (LogMessage.domain m))) (
        then-Writes (append-Writes k_separator) (
          then-Writes (append_text-Writes (LogMessageCatalog.text_of m) (LogMessage.argument m))
            (append_raw_value-Writes raw m)))

  length-raw_text : (raw : RawValue) (m : LogMessage) → length (raw_text raw m) ≤ 27
  length-raw_text RawValue.omit m = omega arith
  length-raw_text RawValue.append_raw m =
      omega
        (arith, length-append (codes " <=> raw=0x") (hex_text 16 m.raw), (hex_text_lem 16 m.raw).0)

  length-filled_text :
      (m : LogMessage)
      → length (filled_text (LogMessageCatalog.text_of m) (LogMessage.argument m)) ≤ 7
  length-filled_text m =
      let p = text_of-IsPlain m in
      let t = LogMessageCatalog.text_of m in
      let a : argument_text t.argument (LogMessage.argument m) ≡ [] =
        ap (λ g. argument_text g (LogMessage.argument m)) p.no_argument in
      omega (
        arith,
        p.short_prefix,
        ap length a,
        ap length p.no_suffix,
        length-append t.prefix (argument_text t.argument (LogMessage.argument m) ++ t.suffix),
        length-append (argument_text t.argument (LogMessage.argument m)) t.suffix,
      )

  -- No message's line is longer than 50 characters.
  pub length-message_text : (m : LogMessage) (raw : RawValue) → length (message_text m raw) ≤ 50
  length-message_text m raw =
      let name = LogMessageCatalog.to_string_domain (LogMessage.domain m) in
      let body = filled_text (LogMessageCatalog.text_of m) (LogMessage.argument m) in
      omega (
        arith,
        length-name (LogMessage.domain m),
        length-append name (k_separator ++ (body ++ raw_text raw m)),
        length-append body (raw_text raw m),
        length-filled_text m,
        length-raw_text raw m,
      )

  -- A buffer of at least `k_max_line_size` characters holds the whole line of every message:
  -- `format_line` returns the line's length, and the line stands at the buffer's start.
  pub format_line_fits :
      (buffer : Text) (m : LogMessage) (raw : RawValue)
      → k_max_line_size ≤ length buffer
      → length buffer < 2 ^ 64
      → ((format_line buffer m raw).0 ≡ length (message_text m raw))
        × (take (format_line buffer m raw).0 (format_line buffer m raw).1 ≡ message_text m raw)
  unfolding format_line view
  format_line_fits buffer m raw h a =
      let (n, t, _) =
        make-Writes buffer (append_message-Writes m raw) (omega (arith, length-message_text m raw))
          a in
      (n, t)
