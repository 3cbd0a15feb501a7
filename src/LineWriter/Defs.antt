-- ===== src/LineWriter/Defs.antt =====
-- The state of a `LineWriter` and its plain appends.
use gamegine.Common.{
  ℕ, ◌+◌, min, Bool, true, false, [], ◌∷◌, Text, length, take, replicate, set, ltb, ◌==◌,
  if◌then◌else◌, add64, sub64,
}

-- `buffer` is the whole of the caller's storage, its scratch behind `size` included.
pub record LineWriter : Type 0 where
  pub buffer : Text
  pub size : ℕ
  pub truncated : Bool

unfoldable pub make : Text → LineWriter
make buffer = record { buffer = buffer; size = 0; truncated = false }

-- `std::memcpy` of `text` to `buffer + offset`: byte by byte, lowest address first.
abbrev pub copy_at : Text → ℕ → Text → Text
copy_at buffer offset [] = buffer
copy_at buffer offset (c ∷ text) = copy_at (set buffer offset c) (offset + 1) text

-- `d_buffer.size() - d_size`
unfoldable pub room : LineWriter → ℕ
room w = sub64 (length w.buffer) w.size

-- `d_truncated = true` under the condition that both appends test.
abbrev mark_cut : Bool → LineWriter → LineWriter
mark_cut cut w = if cut then record w { truncated = true } else w

unfoldable pub append : LineWriter → Text → LineWriter
append w text =
    let space = room w in
    let w' = mark_cut (ltb space (length text)) w in
    let to_write = min (length text) space in
    if to_write == 0 then w' else record w' {
      buffer = copy_at w'.buffer w'.size (take to_write text);
      size = add64 w'.size to_write;
    }

unfoldable pub append_repeated : LineWriter → ℕ → ℕ → LineWriter
append_repeated w c copies =
    let space = room w in
    let w' = mark_cut (ltb space copies) w in
    let to_write = min copies space in
    if to_write == 0 then w' else record w' {
      buffer = copy_at w'.buffer w'.size (replicate to_write c);
      size = add64 w'.size to_write;
    }

unfoldable pub append_char : LineWriter → ℕ → LineWriter
append_char w c = append_repeated w c 1

unfoldable pub append_padded : LineWriter → Text → ℕ → ℕ → LineWriter
append_padded w text pad_width pad_fill =
    let w' = append w text in
    if ltb (length text) pad_width
    then append_repeated w' pad_fill (sub64 pad_width (length text))
    else w'

-- `text.substr(0, width)` clamps.
unfoldable pub append_fitted : LineWriter → Text → ℕ → ℕ → LineWriter
unfolding append_padded
append_fitted w text width pad_fill = append_padded w (take width text) width pad_fill

unfoldable pub view : LineWriter → Text
view w = take w.size w.buffer
