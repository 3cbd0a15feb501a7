-- ===== src/Logger/Output.antt =====
-- The batch of `Logger`: `flush`, `write_record` and `write_loss`.
use gamegine.Common.{
  ℕ, ◌+◌, min, List, [], ◌∷◌, ◌++◌, Text, codes, length, take, drop, set, ltb, ◌==◌, if◌then◌else◌,
  add64, sub64,
}
use gamegine.Common.Int.{ℤ}
use gamegine.Clock.{TickConversion}
use gamegine.LineWriter
use gamegine.LineWriter.{LineWriter, append, append_char, append_decimal}
use gamegine.LogRecord.{LogRecord, Severity}
use gamegine.LogFormat.{append_record, append_prefix}

-- What one call of `write(2)` does: takes at most so many characters, or is interrupted, or fails.
pub data Answer : Type 0 where
  wrote : ℕ → Answer
  interrupted failed : Answer

-- The batch and the file behind it. `answers` is what the next calls of `write(2)` do; a call after
-- them takes all that it is given.
pub record Output : Type 0 where
  pub batch : Text
  pub size : ℕ
  pub answers : List Answer
  pub out : Text

abbrev pub k_batch_size : ℕ
k_batch_size = 65536

abbrev pub k_flush_threshold : ℕ
k_flush_threshold = 8192

-- The loop of `flush`, over the characters from `written` on: the answers left, and what was written.
unfoldable pub write_loop : List Answer → Text → List Answer × Text
write_loop [] pending = ([], pending)
write_loop (wrote n ∷ answers) pending =
    let taken = min n (length pending) in
    let rest = write_loop answers (drop taken pending) in
    if length pending == 0
    then (wrote n ∷ answers, [])
    else if taken == 0
    then (answers, [])
    else (rest.0, take taken pending ++ rest.1)
write_loop (interrupted ∷ answers) pending =
    let rest = write_loop answers pending in
    if length pending == 0 then (interrupted ∷ answers, []) else rest
write_loop (failed ∷ answers) pending =
    if length pending == 0 then (failed ∷ answers, []) else (answers, [])

unfoldable pub flush : Output → Output
unfolding write_loop
flush o =
    let (answers, written) = write_loop o.answers (take o.size o.batch) in
    record o { size = 0; answers = answers; out = o.out ++ written }

-- `d_batch.size() - d_batch_size < k_FLUSH_THRESHOLD`, and the flush.
unfoldable pub make_room : Output → Output
unfolding flush
make_room o = if ltb (sub64 (length o.batch) o.size) k_flush_threshold then flush o else o

-- The batch, its free characters replaced, and `size` more of it used.
abbrev pub commit : Output → Text → ℕ → Output
commit o free size = record o { batch = take o.size o.batch ++ free; size = add64 o.size size }

module _ (float_to_chars : ℕ → Text) (clock : TickConversion) where
  unfoldable pub write_record : Output → LogRecord → Text → Output
  unfolding make_room
  write_record o0 r thread =
      let o = make_room o0 in
      let free = drop o.size o.batch in
      let room = sub64 (length free) 2 in
      let w = append_record float_to_chars (LineWriter.make (take room free)) r thread clock in
      let free' = w.buffer ++ drop room free in
      if w.truncated
      then commit o (set (set free' w.size b'~') (w.size + 1) b'\n') (w.size + 2)
      else commit o free' w.size

  -- `tick` is what `Clock::now` reads.
  unfoldable pub write_loss : Output → ℕ → Text → ℕ → Output
  unfolding make_room
  write_loss o0 tick thread count =
      let o = make_room o0 in
      let free = drop o.size o.batch in
      let w1 = append_prefix (LineWriter.make free) tick Severity.warn (codes "logger") clock in
      let w2 = append_char w1 b' ' in
      let w3 = append w2 thread in
      let w4 = append w3 (codes " lost ") in
      let w5 = append_decimal w4 (ℤ.pos count) 0 b' ' in
      let w6 = append w5 (codes " records\n") in commit o w6.buffer w6.size
