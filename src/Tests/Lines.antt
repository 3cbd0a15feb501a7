-- ===== src/Tests/Lines.antt =====
-- Lines and their parts.
use gamegine.Common.{
  ℕ, false, some, [], ◌∷◌, ◌++◌, ◌≡◌, refl, All, arith, Text, codes, length, take, replicate,
  length-replicate, if◌then◌else◌,
}
use gamegine.Common.Int.{ℤ}
use gamegine.Domain.{Domain}
use gamegine.Error
use gamegine.Error.{Error, Kind, CoreReason, core_traits}
use gamegine.ErrorFormat
use gamegine.ErrorFormat.{RawValue, error_text, format_line_lem}
use gamegine.LogMessage.{LogMessage, Argument}
use gamegine.LogMessage.Value.{pack}
use gamegine.LogMessageCatalog.Split
use gamegine.LogMessageCatalog.Split.{LogMessageText, k_placeholder, is_some}
use gamegine.LogMessageCatalog.Parts.{IsPrintable, make-parts}
use gamegine.LogMessageFormat
use gamegine.LogMessageFormat.{message_text, format_line_fits}
use gamegine.LogRecord
use gamegine.LogRecord.{LogRecord, Severity}
use gamegine.Clock.{TickConversion}
use gamegine.LogFormat.{append_record, line_text}
use gamegine.LogFormat.OneLine.{IsLine, append_record-IsLine}
use gamegine.LogFormat.Columns.{append_record_whole}
use gamegine.LineWriter
use gamegine.LineWriter.{LineWriter, decimal, append, append_fitted, append_decimal, view}
use gamegine.LineWriter.Plain.{copy_plain}
use gamegine.LineWriter.CopyPlain.{IsPlainCopy, copy_plain-IsPlainCopy}
use gamegine.LineWriter.Shows.{Shows, make-Shows, append-Shows}
use gamegine.LineWriter.Decimal.{IsDigit, value, aligned, value-decimal, append_decimal-Shows}

abbrev four : LineWriter
four = LineWriter.make (replicate 4 0)

four-Shows : Shows four []
four-Shows = make-Shows (replicate 4 0) (omega (arith, length-replicate {A = ℕ} 4 0))

append-Shows_example : Shows (append four (codes "hello")) (codes "hello")
append-Shows_example = append-Shows (codes "hello") four-Shows

cut_at_four : view (append four (codes "hello")) ≡ codes "hell"
unfolding append view LineWriter.make LineWriter.room
cut_at_four = refl

append_decimal-Shows_example :
    Shows (append_decimal four (ℤ.negsuc 41) 6 b'0') (aligned (ℤ.negsuc 41) 6 b'0')
append_decimal-Shows_example = append_decimal-Shows four-Shows (ℤ.negsuc 41) 6 b'0' (omega arith)

value-decimal_example : All IsDigit (decimal 1204) × (value 0 (decimal 1204) ≡ 1204)
value-decimal_example = value-decimal 1204

copy_plain-IsPlainCopy_example :
    IsPlainCopy
      (replicate 16 0)
      2
      0
      (codes "one line\n")
      (copy_plain (replicate 16 0) 2 (codes "one line\n"))
copy_plain-IsPlainCopy_example =
    copy_plain-IsPlainCopy (replicate 16 0) 2 (codes "one line\n")
      (
        omega arith,
        (
          omega arith,
          (
            omega arith,
            (
              omega arith,
              (omega arith, (omega arith, (omega arith, (omega arith, (omega arith, tt))))),
            ),
          ),
        ),
      )
      (omega (arith, length-replicate {A = ℕ} 16 0))

abbrev too_many : Error
too_many = Error.make Kind.exhausted CoreReason.log_too_many_threads 32

format_line_lem_example :
    ((ErrorFormat.format_line (replicate 256 0) too_many RawValue.append_raw).0
      ≡ length (error_text too_many RawValue.append_raw))
    × (take
          (ErrorFormat.format_line (replicate 256 0) too_many RawValue.append_raw).0
          (ErrorFormat.format_line (replicate 256 0) too_many RawValue.append_raw).1
        ≡ error_text too_many RawValue.append_raw)
format_line_lem_example =
    format_line_lem (replicate 256 0) too_many RawValue.append_raw
      (omega (arith, length-replicate {A = ℕ} 256 0))
      (omega (arith, length-replicate {A = ℕ} 256 0))

-- A text of each float, for the calls that take one.
abbrev float_text : ℕ → Text
float_text bits = codes "0.5"

abbrev a_message : LogMessage
a_message = pack Domain.core 0 7

format_line_fits_example :
    ((LogMessageFormat.format_line float_text
        (replicate 256 0)
        a_message
        LogMessageFormat.RawValue.omit).0
      ≡ length (message_text float_text a_message LogMessageFormat.RawValue.omit))
    × (take
          (LogMessageFormat.format_line float_text
            (replicate 256 0)
            a_message
            LogMessageFormat.RawValue.omit).0
          (LogMessageFormat.format_line float_text
            (replicate 256 0)
            a_message
            LogMessageFormat.RawValue.omit).1
        ≡ message_text float_text a_message LogMessageFormat.RawValue.omit)
format_line_fits_example =
    format_line_fits float_text (replicate 256 0) a_message LogMessageFormat.RawValue.omit
      (omega (arith, length-replicate {A = ℕ} 256 0))
      (omega (arith, length-replicate {A = ℕ} 256 0))

abbrev frame_text : LogMessageText
frame_text = record {
  prefix = codes "frame ";
  suffix = codes " late";
  argument = Argument.unsigned;
}

frame_compiles : Split.make (codes "frame {} late") Argument.unsigned ≡ some frame_text
unfolding Split.make
frame_compiles = refl

make-parts_example :
    (codes "frame {} late"
      ≡ frame_text.prefix
        ++ ((if is_some Argument.unsigned then k_placeholder else []) ++ frame_text.suffix))
    × All IsPrintable (codes "frame {} late")
    × (frame_text.argument ≡ Argument.unsigned)
make-parts_example = make-parts (codes "frame {} late") Argument.unsigned frame_text frame_compiles

abbrev clock : TickConversion
clock = record { start = 5; num = 1; denom = 1 }

abbrev a_record : LogRecord
a_record = LogRecord.make_error Severity.warn 1_500_000_005 too_many

append_record_whole_example :
    (view (
        append_record float_text
          (LineWriter.make (replicate 512 0))
          a_record
          (codes "render")
          clock)
      ≡ line_text float_text a_record (codes "render") clock)
    × ((append_record float_text
          (LineWriter.make (replicate 512 0))
          a_record
          (codes "render")
          clock).truncated
        ≡ false)
append_record_whole_example =
    append_record_whole float_text (replicate 512 0) a_record (codes "render") clock
      (omega (arith, length-replicate {A = ℕ} 512 0))
      (omega (arith, length-replicate {A = ℕ} 512 0))

append_record-IsLine_example :
    (line : Text) × (view (
        append_record float_text
          (LineWriter.make (replicate 512 0))
          a_record
          (codes "render")
          clock)
      ≡ line ++ (b'\n' ∷ []))
    × IsLine line
append_record-IsLine_example =
    append_record-IsLine float_text (replicate 512 0) a_record (codes "render") clock
      (
        (omega arith, omega arith),
        (
          (omega arith, omega arith),
          (
            (omega arith, omega arith),
            (
              (omega arith, omega arith),
              ((omega arith, omega arith), ((omega arith, omega arith), tt)),
            ),
          ),
        ),
      )
      (omega (arith, length-replicate {A = ℕ} 512 0))
      (omega (arith, length-replicate {A = ℕ} 512 0))
