-- ===== src/LineWriter/Continued.antt =====
-- `append_continued`, a text of several lines under one another.
use gamegine.Common.{
  ℕ, zero, suc, ◌-◌, Bool, true, false, Option, none, some, [], ◌∷◌, Text, length, take, drop, ltb,
  ◌==◌, if◌then◌else◌, sub64,
}
use gamegine.LineWriter.Defs.{LineWriter, append_repeated, append_char}
use gamegine.LineWriter.Plain.{append_plain}

abbrev pub k_lf : ℕ
k_lf = 0x0A

abbrev pub k_crlf : Text
k_crlf = 0x0D ∷ 0x0A ∷ []

-- `std::string_view::starts_with` and `ends_with`
abbrev pub starts_with : Text → Text → Bool
starts_with [] text = true
starts_with (c ∷ prefix) [] = false
starts_with (c ∷ prefix) (d ∷ text) = if c == d then starts_with prefix text else false

abbrev pub ends_with : Text → Text → Bool
ends_with suffix text =
    if ltb (length text) (length suffix)
    then false
    else starts_with suffix (drop (length text - length suffix) text)

-- `remove_suffix`
abbrev remove_suffix : ℕ → Text → Text
remove_suffix n text = take (sub64 (length text) n) text

-- One trailing newline ends the text, not a line of it.
unfoldable pub without_newline : Text → Text
without_newline text =
    if ends_with k_crlf text
    then remove_suffix 2 text
    else if ends_with (k_lf ∷ []) text
    then remove_suffix 1 text
    else text

-- What a pass does from the control character on that `rest` starts with: the writer and what is left.
unfoldable pub handle_control : LineWriter → Text → ℕ → LineWriter × Text
handle_control w rest column =
    let rest' = if starts_with k_crlf rest then drop 1 rest else rest in
    let w' =
      if starts_with (k_lf ∷ []) rest'
      then append_repeated (append_char w k_lf) b' ' column
      else append_char w b'?' in
    (w', drop 1 rest')

-- The loop, of at most so many passes; none if they are not enough.
unfoldable pub continued_loop : ℕ → LineWriter → Text → ℕ → Option LineWriter
unfolding handle_control
continued_loop zero w rest column = if length rest == 0 then some w else none
continued_loop (suc passes) w rest column =
    let (control, w1) = append_plain w rest in
    let (w2, rest') = handle_control w1 (drop control rest) column in
    let next = continued_loop passes w2 rest' column in
    if length rest == 0 then some w else if control == length rest then some w1 else next

-- A pass takes at least one character.
unfoldable pub append_continued : LineWriter → Text → ℕ → Option LineWriter
unfolding continued_loop without_newline
append_continued w text column =
    let rest = without_newline text in continued_loop (length rest) w rest column
