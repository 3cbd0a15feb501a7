-- ===== src/Tests/Formatting.antt =====
-- Texts of several lines, and `std::format` of errors and messages.
use gamegine.Common.{
  ℕ, some, [], ◌∷◌, ◌++◌, ◌≡◌, refl, arith, Text, codes, length, replicate, length-replicate,
}
use gamegine.Error
use gamegine.Error.{Error, Kind, CoreReason, core_traits}
use gamegine.ErrorFormat.{RawValue, error_text}
use gamegine.ErrorFormat.Formatter.{replace_field, replace_field_lem}
use gamegine.Domain.{Domain}
use gamegine.LogMessage.{LogMessage}
use gamegine.LogMessage.Value.{pack}
use gamegine.LogMessageFormat.Formatter.{
  replace_message_field, expected_message, replace_message_field_lem,
}
use gamegine.SpecParsers.{asked_for}
use gamegine.LineWriter
use gamegine.LineWriter.{LineWriter}
use gamegine.LineWriter.Shows.{Shows, make-Shows}
use gamegine.LineWriter.Continued.{append_continued, without_newline}
use gamegine.LineWriter.Continues.{continued_text}
use gamegine.LineWriter.ContinuedShows.{append_continued_lem}

abbrev sixteen : LineWriter
sixteen = LineWriter.make (replicate 16 0)

sixteen-Shows : Shows sixteen []
sixteen-Shows = make-Shows (replicate 16 0) (omega (arith, length-replicate {A = ℕ} 16 0))

-- Two lines, a tab among them, with line ends of two characters.
abbrev two_lines : Text
two_lines = codes "ab" ++ (0x0D ∷ 0x0A ∷ (codes "c" ++ (0x09 ∷ 0x0D ∷ 0x0A ∷ [])))

two_lines_spelled :
    continued_text 2 (without_newline two_lines) ≡ codes "ab" ++ (0x0A ∷ codes "  c?")
unfolding without_newline
two_lines_spelled = refl

append_continued_lem_example :
    (w : LineWriter) × (append_continued sixteen two_lines 2 ≡ some w)
    × Shows w (continued_text 2 (without_newline two_lines))
    × (length w.buffer ≡ length sixteen.buffer)
append_continued_lem_example = append_continued_lem 2 sixteen [] two_lines sixteen-Shows (
  omega arith,
  (
    omega arith,
    (omega arith, (omega arith, (omega arith, (omega arith, (omega arith, (omega arith, tt)))))),
  ),
)

abbrev an_error : Error
an_error = Error.make Kind.exhausted CoreReason.log_too_many_threads 32

replace_field_lem_example :
    replace_field (codes "#}!") an_error (codes "e: ")
    ≡ some (codes "}!", codes "e: " ++ error_text an_error RawValue.append_raw)
replace_field_lem_example = replace_field_lem (codes "#}!") an_error (codes "e: ")

-- A text of each float.
abbrev float_text : ℕ → Text
float_text bits = codes "0.5"

abbrev a_message : LogMessage
a_message = pack Domain.core 0 7

replace_message_field_lem_example :
    replace_message_field float_text (codes "x}") a_message []
    ≡ expected_message float_text a_message [] (asked_for (codes "x}"))
replace_message_field_lem_example = replace_message_field_lem float_text (codes "x}") a_message []
