-- ===== src/LogFormat/OneLine.antt =====
-- core_log_format.h: which characters the columns that `append_record` writes are made of.
use gamegine.Common.{
  ℕ, suc, ◌+◌, ◌/◌, ◌%◌, true, false, ◌&&◌, Bool, [], ◌∷◌, ◌++◌, ◌≡◌, ◌≤◌, ◌<◌, ◌^◌, ◌∙◌, refl, sym,
  arith, Text, codes, length, take, All, All-append, All-take, All-replicate, All-get_or, all, inl,
  inr, Bool-cases, ltb, append_assoc,
}
use gamegine.Common.Int.{ℤ}
use gamegine.Clock.{TickConversion, ns_elapsed_since_start}
use gamegine.Domain.{Domain}
use gamegine.Error
use gamegine.Error.{Error}
use gamegine.ErrorCatalog
use gamegine.ErrorCatalog.{ErrorDescriptor, make-All, lookup-All}
use gamegine.ErrorFormat
use gamegine.ErrorFormat.{error_text, descriptor_text}
use gamegine.LogMessage
use gamegine.LogMessage.{LogMessage}
use gamegine.LogMessageCatalog
use gamegine.LogMessageCatalog.{LogMessageText}
use gamegine.LogMessageCatalog.Parts.{IsPrintable}
use gamegine.LogMessageCatalog.Texts.{text_of-All, text_of-IsPlain}
use gamegine.LogMessageFormat
use gamegine.LogMessageFormat.{message_text, filled_text}
use gamegine.LogRecord
use gamegine.LogRecord.{LogRecord, LogRecordType, Severity, severity_to}
use gamegine.LineWriter
use gamegine.LineWriter.{decimal, view}
use gamegine.LineWriter.Pads.{padded}
use gamegine.LineWriter.Decimal.{aligned, IsDigit, value-decimal}
use gamegine.LineWriter.Hex.{hex_text, hex_text-All, IsHexDigit}
use gamegine.LogFormat.Columns.{append_record_whole}
use gamegine.LogFormat.{
  k_max_line_size, append_record, severity_name, k_names, timestamp_text, prefix_text, payload_text,
  line_text,
}

abbrev pub IsLine : Text → Type 0
IsLine t = All IsPrintable t

-- A text that the kernel can read.
abbrev printable : ℕ → Bool
printable c = ltb b' ' (c + 1) && ltb c (b'~' + 1)

literal : (t : Text) → all printable t ≡ true → IsLine t
literal [] e = tt
literal (c ∷ t) e = elim (Bool-cases (printable c)) [
  | inl h ↦ ((ground arith, ground arith), literal t (rw (h, all) at e))
  | inr h ↦ (let no = rw (h, all) at e in absurd (cc no))
]

append-IsLine : (s t : Text) → IsLine s → IsLine t → IsLine (s ++ t)
append-IsLine s t = All-append IsPrintable s t

digits-IsLine : (t : Text) → All IsDigit t → IsLine t
digits-IsLine [] h = tt
digits-IsLine (c ∷ t) (d, h) = ((omega arith, omega arith), digits-IsLine t h)

aligned-IsLine : (n width fill : ℕ) → IsPrintable fill → IsLine (aligned (ℤ.pos n) width fill)
aligned-IsLine n width fill h =
    append-IsLine _ (decimal n) (All-replicate IsPrintable _ fill h)
      (digits-IsLine (decimal n) (value-decimal n).0)

hex-IsLine : (t : Text) → All IsHexDigit t → IsLine t
hex-IsLine [] h = tt
hex-IsLine (c ∷ t) (d, h) = ((omega arith, omega arith), hex-IsLine t h)

timestamp-IsLine : (ns : ℕ) → IsLine (timestamp_text ns)
timestamp-IsLine ns =
    let seconds = aligned (ℤ.pos (ns / 1_000_000_000)) 4 b' ' in
    let micros = aligned (ℤ.pos (ns % 1_000_000_000 / 1000)) 6 b'0' in
    append-IsLine (b'[' ∷ []) _ (literal (b'[' ∷ []) refl) (
      append-IsLine seconds _ (aligned-IsLine _ 4 b' ' (omega arith, omega arith)) (
        append-IsLine (b'.' ∷ []) _ (literal (b'.' ∷ []) refl) (
          append-IsLine micros (b']' ∷ []) (aligned-IsLine _ 6 b'0' (omega arith, omega arith))
            (literal (b']' ∷ []) refl))))

padded-IsLine : (t : Text) (width : ℕ) → IsLine t → IsLine (padded t width b' ')
padded-IsLine t width h =
    append-IsLine t _ h (All-replicate IsPrintable _ b' ' (omega arith, omega arith))

severity-IsLine : (s : Severity) → IsLine (severity_name s)
unfolding severity_name
severity-IsLine s = elim (Bool-cases (ltb (severity_to s) (length k_names))) [
  | inl e ↦ rw e (
      All-get_or IsLine k_names (severity_to s) (codes "?") (literal (codes "?") refl) (
        literal (codes "TRACE") refl,
        (
          literal (codes "DEBUG") refl,
          (
            literal (codes "INFO") refl,
            (
              literal (codes "WARN") refl,
              (literal (codes "ERROR") refl, (literal (codes "FATAL") refl, tt)),
            ),
          ),
        ),
      ))
  | inr e ↦ rw e (literal (codes "?") refl)
]

prefix-IsLine :
    (ns : ℕ) (severity : Severity) (thread : Text)
    → IsLine thread
    → IsLine (prefix_text ns severity thread)
prefix-IsLine ns severity thread h = append-IsLine (timestamp_text ns) _ (timestamp-IsLine ns) (
    append-IsLine (b' ' ∷ []) _ (literal (b' ' ∷ []) refl) (
      append-IsLine (padded (severity_name severity) 5 b' ') _
        (padded-IsLine (severity_name severity) 5 (severity-IsLine severity))
        (append-IsLine (b' ' ∷ []) _ (literal (b' ' ∷ []) refl)
          (padded-IsLine (take 8 thread) 8 (All-take IsPrintable 8 thread h)))))

error-IsLine : (e : Error) → IsLine (error_text e ErrorFormat.RawValue.omit)
error-IsLine e =
    let d = ErrorCatalog.make e in
    let (domain, kind, reason) =
      make-All IsLine (literal (codes "?") refl)
        (
          literal (codes "unknown") refl,
          (
            literal (codes "core") refl,
            (literal (codes "vulkan") refl, (literal (codes "metal") refl, tt)),
          ),
        )
        (literal (codes "unknown") refl, (literal (codes "exhausted") refl, tt))
        (literal (codes "unknown") refl, (literal (codes "log_too_many_threads") refl, tt))
        (literal (codes "unknown") refl, tt) (literal (codes "unknown") refl, tt) e in
    let separator = literal ErrorFormat.k_separator refl in
    let context : Text = codes "ctx=0x" ++ (hex_text 8 (Error.context e) ++ []) in
    append-IsLine (descriptor_text d) (ErrorFormat.k_separator ++ context)
      (append-IsLine d.domain _ domain (
        append-IsLine ErrorFormat.k_separator _ separator (
          append-IsLine d.kind _ kind
            (append-IsLine ErrorFormat.k_separator d.reason separator reason))))
      (append-IsLine ErrorFormat.k_separator context separator (
        append-IsLine (codes "ctx=0x") _ (literal (codes "ctx=0x") refl) (
          append-IsLine (hex_text 8 (Error.context e)) []
            (hex-IsLine _ (hex_text-All 8 (Error.context e))) tt)))

name-IsLine : (d : Domain) → IsLine (LogMessageCatalog.to_string_domain d)
unfolding LogMessageCatalog.to_string_domain
name-IsLine Domain.unknown = literal (codes "unknown") refl
name-IsLine Domain.core = literal (codes "core") refl
name-IsLine Domain.vulkan = literal (codes "vulkan") refl
name-IsLine Domain.metal = literal (codes "metal") refl
name-IsLine Domain.count = literal (codes "?") refl
name-IsLine (Domain.unnamed n) =
    let over : ltb (suc (suc (suc (suc (suc n))))) 4 ≡ false = ground arith in
    rw over (literal (codes "?") refl)

message-IsLine :
    (float_to_chars : ℕ → Text) (m : LogMessage)
    → IsLine (message_text float_to_chars m LogMessageFormat.RawValue.omit)
message-IsLine float_to_chars m =
    let t = LogMessageCatalog.text_of m in
    let plain = text_of-IsPlain m in
    let prefix =
      text_of-All (λ text. IsLine text.prefix) (literal (codes "?") refl)
        (literal (codes "unknown") refl, tt) m in
    let name = LogMessageCatalog.to_string_domain (LogMessage.domain m) in
    append-IsLine name _ (name-IsLine (LogMessage.domain m)) (
      append-IsLine LogMessageFormat.k_separator _ (literal LogMessageFormat.k_separator refl) (
        append-IsLine (filled_text float_to_chars t (LogMessage.argument m)) []
          (append-IsLine t.prefix _ prefix (rw (plain.no_argument, plain.no_suffix) tt)) tt))

payload-IsLine :
    (float_to_chars : ℕ → Text) (type : LogRecordType) (r : LogRecord)
    → IsLine (payload_text float_to_chars type r)
payload-IsLine float_to_chars LogRecordType.error r = error-IsLine (LogRecord.error r)
payload-IsLine float_to_chars LogRecordType.message r =
    message-IsLine float_to_chars (LogRecord.message r)
payload-IsLine float_to_chars LogRecordType.count r = literal (codes "?") refl
payload-IsLine float_to_chars (LogRecordType.unnamed n) r = literal (codes "?") refl

line_text-IsLine :
    (float_to_chars : ℕ → Text) (r : LogRecord) (thread : Text) (clock : TickConversion)
    → IsLine thread
    → (line : Text) × (line_text float_to_chars r thread clock ≡ line ++ (b'\n' ∷ [])) × IsLine line
line_text-IsLine float_to_chars r thread clock h =
    let ns = ns_elapsed_since_start clock (LogRecord.ticks r) in
    let prefix = prefix_text ns (LogRecord.severity r) thread in
    let payload = payload_text float_to_chars (LogRecord.record_type r) r in
    (
      prefix ++ ((b' ' ∷ []) ++ payload),
      sym (append_assoc prefix ((b' ' ∷ []) ++ payload) (b'\n' ∷ [])),
      append-IsLine prefix _ (prefix-IsLine ns (LogRecord.severity r) thread h) (
          append-IsLine (b' ' ∷ []) payload (literal (b' ' ∷ []) refl)
            (payload-IsLine float_to_chars (LogRecord.record_type r) r)),
    )

-- Of a thread whose name is of printable characters, and into an empty line of a buffer of at least
-- `k_max_line_size` and fewer than 2 ^ 64 characters, `append_record` writes, for every record, a
-- text of printable characters and one newline behind it.
pub append_record-IsLine :
    (float_to_chars : ℕ → Text) (buffer : Text) (r : LogRecord) (thread : Text)
    (clock : TickConversion)
    → IsLine thread
    → k_max_line_size ≤ length buffer
    → length buffer < 2 ^ 64
    → (line : Text) × (view (append_record float_to_chars (LineWriter.make buffer) r thread clock)
        ≡ line ++ (b'\n' ∷ []))
      × IsLine line
append_record-IsLine float_to_chars buffer r thread clock h room small =
    let (line, whole, printed) = line_text-IsLine float_to_chars r thread clock h in
    let shown = (append_record_whole float_to_chars buffer r thread clock room small).0 in
    (line, shown ∙ whole, printed)
