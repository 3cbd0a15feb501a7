-- ===== src/ErrorFormat.antt =====
-- gamegine/include/engine/core/core_error_format.h: an error as a line of text.
pub mod Formatter
use gamegine.Common.{
  ℕ, ◌≤◌, ◌<◌, ◌^◌, [], ◌++◌, ◌≡◌, Text, codes, length, length-append, take, arith,
}
use gamegine.Error
use gamegine.Error.{Error}
use gamegine.ErrorCatalog
use gamegine.ErrorCatalog.{ErrorDescriptor, make-short}
use gamegine.LineWriter
use gamegine.LineWriter.{LineWriter, append, append_hex, view}
use gamegine.LineWriter.Hex.{hex_text, hex_text_lem}
use gamegine.LineWriter.Writes.{
  Writes, then-Writes, nothing-Writes, append-Writes, append_hex-Writes, make-Writes,
}

pub data RawValue : Type 0 where
  omit append_raw : RawValue

abbrev pub k_separator : Text
k_separator = codes " | "

abbrev pub k_max_line_size : ℕ
k_max_line_size = 256

unfoldable pub append_descriptor : LineWriter → ErrorDescriptor → LineWriter
append_descriptor w0 d =
    let w1 = append w0 d.domain in
    let w2 = append w1 k_separator in
    let w3 = append w2 d.kind in let w4 = append w3 k_separator in append w4 d.reason

-- ` <=> raw=0x` and the raw value, if it is asked for.
abbrev append_raw_value : RawValue → LineWriter → Error → LineWriter
append_raw_value RawValue.omit w e = w
append_raw_value RawValue.append_raw w e = append_hex 16 (append w (codes " <=> raw=0x")) e.raw

unfoldable pub append_error : LineWriter → Error → RawValue → LineWriter
unfolding append_descriptor
append_error w0 e raw =
    let w1 = append_descriptor w0 (ErrorCatalog.make e) in
    let w2 = append w1 k_separator in
    let w3 = append w2 (codes "ctx=0x") in
    let w4 = append_hex 8 w3 (Error.context e) in append_raw_value raw w4 e

-- The number of characters written, and the caller's buffer.
unfoldable pub format_line : Text → Error → RawValue → ℕ × Text
format_line buffer e raw = let w = append_error (LineWriter.make buffer) e raw in (w.size, w.buffer)

-- The layout of a line, as the component's documentation gives it.
abbrev pub descriptor_text : ErrorDescriptor → Text
descriptor_text d = d.domain ++ (k_separator ++ (d.kind ++ (k_separator ++ d.reason)))

abbrev pub raw_text : RawValue → Error → Text
raw_text RawValue.omit e = []
raw_text RawValue.append_raw e = codes " <=> raw=0x" ++ hex_text 16 e.raw

abbrev pub error_text : Error → RawValue → Text
error_text e raw =
    descriptor_text (ErrorCatalog.make e)
    ++ (k_separator ++ (codes "ctx=0x" ++ (hex_text 8 (Error.context e) ++ raw_text raw e)))

pub append_descriptor-Writes :
    (d : ErrorDescriptor) → Writes (λ w. append_descriptor w d) (descriptor_text d)
unfolding append_descriptor
append_descriptor-Writes d = then-Writes (append-Writes d.domain) (
    then-Writes (append-Writes k_separator) (
      then-Writes (append-Writes d.kind)
        (then-Writes (append-Writes k_separator) (append-Writes d.reason))))

append_raw_value-Writes :
    (raw : RawValue) (e : Error) → Writes (λ w. append_raw_value raw w e) (raw_text raw e)
append_raw_value-Writes RawValue.omit e = nothing-Writes
append_raw_value-Writes RawValue.append_raw e =
    then-Writes (append-Writes (codes " <=> raw=0x")) (append_hex-Writes 16 e.raw)

-- `append_error` writes the line of the error.
pub append_error-Writes :
    (e : Error) (raw : RawValue) → Writes (λ w. append_error w e raw) (error_text e raw)
unfolding append_error
append_error-Writes e raw = then-Writes (append_descriptor-Writes (ErrorCatalog.make e)) (
    then-Writes (append-Writes k_separator) (
      then-Writes (append-Writes (codes "ctx=0x"))
        (then-Writes (append_hex-Writes 8 (Error.context e)) (append_raw_value-Writes raw e))))

length-raw_text : (raw : RawValue) (e : Error) → length (raw_text raw e) ≤ 27
length-raw_text RawValue.omit e = omega arith
length-raw_text RawValue.append_raw e =
    omega
      (arith, length-append (codes " <=> raw=0x") (hex_text 16 e.raw), (hex_text_lem 16 e.raw).0)

length-descriptor_text : (e : Error) → length (descriptor_text (ErrorCatalog.make e)) ≤ 66
length-descriptor_text e =
    let d = ErrorCatalog.make e in
    omega (
      arith,
      make-short e,
      length-append d.domain (k_separator ++ (d.kind ++ (k_separator ++ d.reason))),
      length-append d.kind (k_separator ++ d.reason),
    )

-- No error's line is longer than 110 characters.
pub length-error_text : (e : Error) (raw : RawValue) → length (error_text e raw) ≤ 110
length-error_text e raw = omega (
  arith,
  length-append (descriptor_text (ErrorCatalog.make e))
      (k_separator ++ (codes "ctx=0x" ++ (hex_text 8 (Error.context e) ++ raw_text raw e))),
  length-append (hex_text 8 (Error.context e)) (raw_text raw e),
  length-raw_text raw e,
  length-descriptor_text e,
  (hex_text_lem 8 (Error.context e)).0,
)

-- A buffer of at least `k_max_line_size` characters holds the whole line of every error:
-- `format_line` returns the line's length, and the line stands at the buffer's start.
pub format_line_lem :
    (buffer : Text) (e : Error) (raw : RawValue)
    → k_max_line_size ≤ length buffer
    → length buffer < 2 ^ 64
    → ((format_line buffer e raw).0 ≡ length (error_text e raw))
      × (take (format_line buffer e raw).0 (format_line buffer e raw).1 ≡ error_text e raw)
unfolding format_line view
format_line_lem buffer e raw h a =
    let (n, t, _) =
      make-Writes buffer (append_error-Writes e raw) (omega (arith, length-error_text e raw)) a in
    (n, t)
