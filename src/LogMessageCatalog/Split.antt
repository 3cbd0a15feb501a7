-- ===== src/LogMessageCatalog/Split.antt =====
-- `LogMessageText`: a message's text, checked and split at its argument.
use gamegine.Common.{
  ℕ, suc, ◌+◌, Bool, true, false, ◌||◌, ◌&&◌, Option, none, some, [], ◌∷◌, Text, codes, length,
  get_or, take, drop, ltb, ◌==◌, if◌then◌else◌,
}
use gamegine.LogMessage.Enums.{Argument}

abbrev pub k_placeholder : Text
k_placeholder = codes "{}"

pub record LogMessageText : Type 0 where
  pub prefix : Text
  pub suffix : Text
  pub argument : Argument

-- `text.starts_with(k_PLACEHOLDER)`
abbrev pub starts : Text → Bool
starts (c ∷ d ∷ text) = c == b'{' && d == b'}'
starts _ = false

-- `c < ' ' || c > '~'`; a byte above 127 is a negative `char`, below `' '`.
abbrev pub unprintable : ℕ → Bool
unprintable c = ltb c b' ' || ltb b'~' c

abbrev pub is_brace : ℕ → Bool
is_brace c = c == b'{' || c == b'}'

-- The loop of `is_valid`: the braces counted and whether a placeholder was seen, or none for an
-- unprintable character.
unfoldable pub scan : Text → ℕ → Bool → Option (ℕ × Bool)
scan [] braces has_placeholder = some (braces, has_placeholder)
scan (c ∷ text) braces has_placeholder =
    let braces' = if is_brace c then braces + 1 else braces in
    let has_placeholder' =
      if is_brace c then has_placeholder || starts (c ∷ text) else has_placeholder in
    let rest = scan text braces' has_placeholder' in if unprintable c then none else rest

-- `has_placeholder == b`
abbrev pub same : Bool → Bool → Bool
same true b = b
same false true = false
same false false = true

-- `argument != Argument::e_NONE`
abbrev pub is_some : Argument → Bool
is_some Argument.none = false
is_some _ = true

-- `argument >= Argument::e_COUNT`
abbrev pub is_undeclared : Argument → Bool
is_undeclared Argument.count = true
is_undeclared (Argument.unnamed n) = true
is_undeclared _ = false

abbrev last : Text → ℕ
last [] = 0
last (c ∷ []) = c
last (c ∷ d ∷ text) = last (d ∷ text)

-- What `is_valid` returns of its counts.
abbrev pub agrees : Argument → Option (ℕ × Bool) → Bool
agrees a none = false
agrees a (some (braces, has_placeholder)) =
    same has_placeholder (is_some a) && braces == (if has_placeholder then 2 else 0)

unfoldable pub is_valid : Text → Argument → Bool
unfolding scan
is_valid text a =
    if (length text == 0 || (get_or text 0 0 == b' ' || (last text == b' ' || is_undeclared a)))
    then false
    else agrees a (scan text 0 false)

-- An index in a text, one character further on.
abbrev pub next : Option ℕ → Option ℕ
next none = none
next (some i) = some (suc i)

-- `text.find(k_PLACEHOLDER)`
unfoldable pub find : Text → Option ℕ
find [] = none
find (c ∷ text) = let later = next (find text) in if starts (c ∷ text) then some 0 else later

-- The split at the placeholder that `find` gives.
abbrev pub split : Text → Argument → Option ℕ → LogMessageText
split text a none = record { prefix = text; suffix = []; argument = a }
split text a (some placeholder) = record {
  prefix = take placeholder text;
  suffix = drop (placeholder + length k_placeholder) text;
  argument = a;
}

-- The `consteval` constructor; `none` is a text that does not compile.
unfoldable pub make : Text → Argument → Option LogMessageText
unfolding is_valid find
make text a = if is_valid text a then some (split text a (find text)) else none

-- The default constructor: `"?"`, without an argument.
abbrev pub unnamed_text : LogMessageText
unnamed_text = record { prefix = codes "?"; suffix = []; argument = Argument.none }
