-- ===== src/SpecParsers.antt =====
-- The bases of the `std::formatter` specializations, gamegine/include/engine/core/core_format.h. A text
-- to parse runs from `context.begin()` to `context.end()`, and an iterator is what is left of it.
use gamegine.Common.{
  Bool, true, false, Option, none, some, [], ◌∷◌, Text, ◌==◌, if◌then◌else◌, ◌≡◌, refl, inl, inr,
  Bool-cases, arith,
}

-- `std::abort` at run time, no compilation of a literal.
abbrev pub reject_format_spec : {A : Type 0} → Option A
reject_format_spec = none

-- `it != context.end() && *it != '}'`
abbrev more_than_brace : Text → Bool
more_than_brace [] = false
more_than_brace (c ∷ rest) = if c == b'}' then false else true

-- `EmptySpecParser::parse`
unfoldable pub parse_empty : Text → Option Text
parse_empty it = if more_than_brace it then reject_format_spec else some it

pub record AlternateFlagParser : Type 0 where
  pub alternate : Bool

abbrev pub unset : AlternateFlagParser
unset = record { alternate = false }

-- `it != context.end() && *it == '#'`, and the iterator behind it.
abbrev pub at_flag : Text → Bool × Text
at_flag [] = (false, [])
at_flag (c ∷ rest) = if c == b'#' then (true, rest) else (false, c ∷ rest)

-- `AlternateFlagParser::parse`
unfoldable pub parse_alternate : AlternateFlagParser → Text → Option (Text × AlternateFlagParser)
parse_alternate p begin =
    let (flagged, it) = at_flag begin in
    let p' = if flagged then record p { alternate = true } else p in
    if more_than_brace it then reject_format_spec else some (it, p')

abbrev pub is_alternate : AlternateFlagParser → Bool
is_alternate p = p.alternate

-- What a replacement field asks for, `{}` or `{:#}`, and where it ends; none if it is any other.
abbrev pub asked_for : Text → Option (Text × Bool)
asked_for [] = some ([], false)
asked_for (c ∷ []) =
    if c == b'}' then some (c ∷ [], false) else if c == b'#' then some ([], true) else none
asked_for (c ∷ d ∷ rest) =
    if c == b'}'
    then some (c ∷ d ∷ rest, false)
    else if c == b'#'
    then (if d == b'}' then some (d ∷ rest, true) else none)
    else none

-- A fresh parser, told what a field asks for.
abbrev pub parsed : Option (Text × Bool) → Option (Text × AlternateFlagParser)
parsed none = none
parsed (some (it, alternate)) = some (it, record { alternate = alternate })

pub parse_alternate_lem : (spec : Text) → parse_alternate unset spec ≡ parsed (asked_for spec)
unfolding parse_alternate
parse_alternate_lem [] = refl
parse_alternate_lem (c ∷ []) = elim (Bool-cases (c == b'}')) [
  | inl close ↦ let here : c ≡ b'}' = ground arith in rw here refl
  | inr other ↦ elim (Bool-cases (c == b'#')) [
    | inl flag ↦ rw other (rw flag refl)
    | inr none_such ↦ rw none_such (rw other refl)
  ]
]
parse_alternate_lem (c ∷ d ∷ rest) = elim (Bool-cases (c == b'}')) [
  | inl close ↦ let here : c ≡ b'}' = ground arith in rw here refl
  | inr other ↦ elim (Bool-cases (c == b'#')) [
    | inl flag ↦ elim (Bool-cases (d == b'}')) [
      | inl close ↦ rw other (rw flag (rw close refl))
      | inr more ↦ rw other (rw flag (rw more refl))
    ]
    | inr none_such ↦ rw none_such (rw other refl)
  ]
]

-- An empty specification.
abbrev pub only_empty : Option (Text × Bool) → Option Text
only_empty none = none
only_empty (some (it, true)) = none
only_empty (some (it, false)) = some it

pub parse_empty_lem : (spec : Text) → parse_empty spec ≡ only_empty (asked_for spec)
unfolding parse_empty
parse_empty_lem [] = refl
parse_empty_lem (c ∷ []) = elim (Bool-cases (c == b'}')) [
  | inl close ↦ rw close refl
  | inr other ↦ elim (Bool-cases (c == b'#')) [
    | inl flag ↦ rw other (rw flag refl)
    | inr none_such ↦ rw none_such (rw other refl)
  ]
]
parse_empty_lem (c ∷ d ∷ rest) = elim (Bool-cases (c == b'}')) [
  | inl close ↦ rw close refl
  | inr other ↦ elim (Bool-cases (c == b'#')) [
    | inl flag ↦ elim (Bool-cases (d == b'}')) [
      | inl close ↦ rw other (rw flag (rw close refl))
      | inr more ↦ rw other (rw flag (rw more refl))
    ]
    | inr none_such ↦ rw none_such (rw other refl)
  ]
]
