-- ===== src/LogMessageFormat/Formatter.antt =====
-- `std::formatter` of a message.
use gamegine.Common.{
  ℕ, Bool, Option, none, some, ◌++◌, ◌≡◌, refl, ap, ◌∙◌, Text, replicate, length-replicate, arith,
  if◌then◌else◌,
}
use gamegine.SpecParsers.{
  AlternateFlagParser, unset, parse_alternate, is_alternate, asked_for, parsed, parse_alternate_lem,
}
use gamegine.LogMessage.{LogMessage}
use gamegine.LogMessageFormat.{
  RawValue, k_max_line_size, append_message, message_text, append_message-Writes,
  length-message_text,
}
use gamegine.LineWriter
use gamegine.LineWriter.{LineWriter, view}
use gamegine.LineWriter.Writes.{make-Writes}

abbrev pub raw_of : Bool → RawValue
raw_of alternate = if alternate then RawValue.append_raw else RawValue.omit

module _ (float_to_chars : ℕ → Text) where
  -- `format(message, context)`: what is in the output before and after.
  unfoldable pub format_message : AlternateFlagParser → LogMessage → Text → Text
  format_message p m out =
      let raw = if is_alternate p then RawValue.append_raw else RawValue.omit in
      let w = append_message float_to_chars (LineWriter.make (replicate k_max_line_size 0)) m raw in
      out ++ view w

  -- Parse, then format: the rest of the format string, and the output.
  abbrev formatted : LogMessage → Text → Option (Text × AlternateFlagParser) → Option (Text × Text)
  formatted m out none = none
  formatted m out (some (it, p)) = some (it, format_message p m out)

  unfoldable pub replace_message_field : Text → LogMessage → Text → Option (Text × Text)
  replace_message_field spec m out = formatted m out (parse_alternate unset spec)

  -- The line that a field asks for.
  abbrev pub expected_message : LogMessage → Text → Option (Text × Bool) → Option (Text × Text)
  expected_message m out none = none
  expected_message m out (some (it, alternate)) =
      some (it, out ++ message_text float_to_chars m (raw_of alternate))

  format_message_lem :
      (p : AlternateFlagParser) (m : LogMessage) (out : Text)
      → format_message p m out ≡ out ++ message_text float_to_chars m (raw_of p.alternate)
  unfolding format_message
  format_message_lem p m out =
      let size = length-replicate {A = ℕ} k_max_line_size 0 in
      let raw = raw_of p.alternate in
      let (_, shown, _) =
        make-Writes (replicate k_max_line_size 0) (append_message-Writes float_to_chars m raw)
          (omega (arith, length-message_text float_to_chars m raw)) (omega arith) in
      ap (λ t. out ++ t) shown

  -- Whatever text begins at the specification of a replacement field, a message is written behind
  -- the output as its line for an empty specification, as its line with the raw value for `#`, and
  -- parsing stops at the field's end; any other specification is rejected.
  pub replace_message_field_lem :
      (spec : Text) (m : LogMessage) (out : Text)
      → replace_message_field spec m out ≡ expected_message m out (asked_for spec)
  unfolding replace_message_field
  replace_message_field_lem spec m out =
      ap (formatted m out) (parse_alternate_lem spec) ∙ go (asked_for spec)
    where
      go :
          (asked : Option (Text × Bool))
          → formatted m out (parsed asked) ≡ expected_message m out asked
      go none = refl
      go (some (it, alternate)) =
          ap (λ t. some (it, t)) (format_message_lem (record { alternate = alternate }) m out)
