-- ===== src/ErrorFormat/Formatter.antt =====
-- `std::formatter` of an error and of its descriptor.
use gamegine.Common.{
  ℕ, Bool, true, false, Option, none, some, [], ◌++◌, ◌≡◌, refl, ap, ◌∙◌, Text, length, take,
  replicate, length-replicate, arith, if◌then◌else◌,
}
use gamegine.SpecParsers.{
  AlternateFlagParser, unset, parse_alternate, parse_empty, is_alternate, asked_for, parsed,
  only_empty, parse_empty_lem, parse_alternate_lem,
}
use gamegine.Error.{Error}
use gamegine.ErrorCatalog.{ErrorDescriptor}
use gamegine.ErrorFormat.{
  RawValue, k_max_line_size, append_descriptor, append_error, descriptor_text, error_text,
  append_descriptor-Writes, append_error-Writes, length-error_text,
}
use gamegine.LineWriter
use gamegine.LineWriter.{LineWriter, view}
use gamegine.LineWriter.Shows.{make-Shows}
use gamegine.LineWriter.Writes.{make-Writes}

-- `format(descriptor, context)`: what is in the output before and after.
unfoldable pub format_descriptor : ErrorDescriptor → Text → Text
format_descriptor d out =
    let w = append_descriptor (LineWriter.make (replicate k_max_line_size 0)) d in out ++ view w

-- `format(error, context)`
unfoldable pub format_error : AlternateFlagParser → Error → Text → Text
format_error p e out =
    let raw = if is_alternate p then RawValue.append_raw else RawValue.omit in
    let w = append_error (LineWriter.make (replicate k_max_line_size 0)) e raw in out ++ view w

-- What `std::format` does with a replacement field of an error: parse, then format. The rest of the
-- format string, and the output; none if the field is rejected.
abbrev formatted : Error → Text → Option (Text × AlternateFlagParser) → Option (Text × Text)
formatted e out none = none
formatted e out (some (it, p)) = some (it, format_error p e out)

unfoldable pub replace_field : Text → Error → Text → Option (Text × Text)
replace_field spec e out = formatted e out (parse_alternate unset spec)

abbrev pub raw_of : Bool → RawValue
raw_of alternate = if alternate then RawValue.append_raw else RawValue.omit

-- The line that a field asks for.
abbrev pub expected : Error → Text → Option (Text × Bool) → Option (Text × Text)
expected e out none = none
expected e out (some (it, alternate)) = some (it, out ++ error_text e (raw_of alternate))

format_error_lem :
    (p : AlternateFlagParser) (e : Error) (out : Text)
    → format_error p e out ≡ out ++ error_text e (raw_of p.alternate)
unfolding format_error
format_error_lem p e out =
    let size = length-replicate {A = ℕ} k_max_line_size 0 in
    let (_, shown, _) =
      make-Writes (replicate k_max_line_size 0) (append_error-Writes e (raw_of p.alternate))
        (omega (arith, length-error_text e (raw_of p.alternate))) (omega arith) in
    ap (λ t. out ++ t) shown

-- Whatever text begins at the specification of a replacement field, an error is written behind the
-- output as its line for an empty specification, as its line with the raw value for `#`, and
-- parsing stops at the field's end; any other specification is rejected.
pub replace_field_lem :
    (spec : Text) (e : Error) (out : Text)
    → replace_field spec e out ≡ expected e out (asked_for spec)
unfolding replace_field
replace_field_lem spec e out = ap (formatted e out) (parse_alternate_lem spec) ∙ go (asked_for spec)
  where
    go : (asked : Option (Text × Bool)) → formatted e out (parsed asked) ≡ expected e out asked
    go none = refl
    go (some (it, alternate)) =
        ap (λ t. some (it, t)) (format_error_lem (record { alternate = alternate }) e out)

format_descriptor_lem :
    (d : ErrorDescriptor) (out : Text)
    → format_descriptor d out ≡ out ++ take k_max_line_size (descriptor_text d)
unfolding format_descriptor
format_descriptor_lem d out =
    let size = length-replicate {A = ℕ} k_max_line_size 0 in
    let buffer : Text = replicate k_max_line_size 0 in
    let (v, kept) =
      append_descriptor-Writes d (LineWriter.make buffer) [] (make-Shows buffer (omega arith)) in
    let kept' : length (append_descriptor (LineWriter.make buffer) d).buffer ≡ k_max_line_size =
      kept ∙ (unfold LineWriter.make in size) in
    ap (λ t. out ++ t) (v.shown ∙ ap (λ (n : ℕ). take n (descriptor_text d)) kept')

abbrev formatted_descriptor : ErrorDescriptor → Text → Option Text → Option (Text × Text)
formatted_descriptor d out none = none
formatted_descriptor d out (some it) = some (it, format_descriptor d out)

unfoldable pub replace_descriptor_field : Text → ErrorDescriptor → Text → Option (Text × Text)
replace_descriptor_field spec d out = formatted_descriptor d out (parse_empty spec)

abbrev pub expected_descriptor :
    ErrorDescriptor → Text → Option (Text × Bool) → Option (Text × Text)
expected_descriptor d out none = none
expected_descriptor d out (some (it, true)) = none
expected_descriptor d out (some (it, false)) =
    some (it, out ++ take k_max_line_size (descriptor_text d))

-- Whatever text begins at the specification of a replacement field, a descriptor is written behind
-- the output as its three names, cut at `k_max_line_size` characters, for an empty specification;
-- any other specification, `#` included, is rejected.
replace_descriptor_field_lem :
    (spec : Text) (d : ErrorDescriptor) (out : Text)
    → replace_descriptor_field spec d out ≡ expected_descriptor d out (asked_for spec)
unfolding replace_descriptor_field
replace_descriptor_field_lem spec d out =
    ap (formatted_descriptor d out) (parse_empty_lem spec) ∙ go (asked_for spec)
  where
    go :
        (asked : Option (Text × Bool))
        → formatted_descriptor d out (only_empty asked) ≡ expected_descriptor d out asked
    go none = refl
    go (some (it, true)) = refl
    go (some (it, false)) = ap (λ t. some (it, t)) (format_descriptor_lem d out)
