-- ===== src/LineWriter/Plain.antt =====
-- `copy_plain`, the copy that stops at the first control character and looks at eight bytes at a
-- time, and `append_plain` over it.
use gamegine.Common.{
  ℕ, zero, suc, ◌+◌, ◌*◌, ◌/◌, ◌%◌, Bool, true, ◌||◌, [], ◌∷◌, Text, length, take, ltb, ◌==◌,
  if◌then◌else◌, bit_and, bit_or, bit_xor, add64, sub64, mul64, not64,
}
use gamegine.LineWriter.Defs.{LineWriter, copy_at, room}

-- `code < code_of(k_SPACE) || code == code_of(k_DEL)`
abbrev pub is_control : ℕ → Bool
is_control c = ltb c 0x20 || c == 0x7F

abbrev pub k_ones : ℕ
k_ones = 0x0101_0101_0101_0101

abbrev pub k_spaces : ℕ
k_spaces = mul64 k_ones 0x20

abbrev pub k_dels : ℕ
k_dels = mul64 k_ones 0x7F

abbrev pub k_highs : ℕ
k_highs = mul64 k_ones 0x80

unfoldable pub below : ℕ → ℕ → ℕ
below x limit = bit_and (bit_and (sub64 x limit) (not64 x)) k_highs

-- `flagged`, the control characters of a word
unfoldable pub flags : ℕ → ℕ
flags word = bit_or (below word k_spaces) (below (bit_xor word k_dels) k_ones)

-- A word as `std::memcpy` reads it on a little-endian machine: the first byte is the lowest.
abbrev pub load_word : Text → ℕ
load_word [] = 0
load_word (c ∷ t) = load_word t * 256 + c

-- `std::countr_zero`, of so many bits
unfoldable pub countr_zero : ℕ → ℕ → ℕ
countr_zero zero x = 0
countr_zero (suc bits) x =
    let rest = suc (countr_zero bits (x / 2)) in if x % 2 == 1 then 0 else rest

-- What `copy_plain` leaves in the buffer behind `d_size`, and the position that it returns.
abbrev pub Copied : Type 0
Copied = Text × ℕ

-- The last loop: `position` counts from the start of the text, `text` is what is left of it.
unfoldable pub copy_bytes : Text → ℕ → ℕ → Text → Copied
copy_bytes out start position [] = (out, position)
copy_bytes out start position (c ∷ text) =
    let rest = copy_bytes (copy_at out (start + position) (c ∷ [])) start (position + 1) text in
    if is_control c then (out, position) else rest

-- The loop over words: while eight bytes are left they are copied, then tested.
unfoldable pub copy_words : Text → ℕ → ℕ → Text → Copied
unfolding flags below countr_zero copy_bytes
copy_words out start position (a ∷ b ∷ c ∷ d ∷ e ∷ f ∷ g ∷ h ∷ text) =
    let eight = a ∷ b ∷ c ∷ d ∷ e ∷ f ∷ g ∷ h ∷ [] in
    let flagged = flags (load_word eight) in
    let out' = copy_at out (start + position) eight in
    let rest = copy_words out' start (position + 8) text in
    if flagged == 0 then rest else (out', position + countr_zero 64 flagged / 8)
copy_words out start position text = copy_bytes out start position text

-- `copy_plain(d_buffer.subspan(start), text)`
unfoldable pub copy_plain : Text → ℕ → Text → Copied
unfolding copy_words
copy_plain buffer start text = copy_words buffer start 0 text

-- The position that is returned, and the writer.
unfoldable pub append_plain : LineWriter → Text → ℕ × LineWriter
unfolding copy_plain
append_plain w text =
    let fitting = take (room w) text in
    let (buffer, control) = copy_plain w.buffer w.size fitting in
    let w' = record w { buffer = buffer; size = add64 w.size control } in
    if ltb control (length fitting)
    then (control, w')
    else if ltb (length fitting) (length text)
    then (length text, record w' { truncated = true })
    else (length text, w')
