-- ===== src/Logger/Written.antt =====
-- What the batch and the file hold after each of the calls.
use gamegine.Common.{
  length_zero, ℕ, ◌+◌, ◌-◌, ◌≤◌, ◌<◌, min, false, inl, inr, List, [], ◌∷◌, ◌++◌, ◌≡◌, refl, sym, ap,
  ◌∙◌, arith, Text, length, take, drop, ltb, ◌==◌, sub64, All, Bool-cases, length-take, length-drop,
  length-append, take-append, take-append_add, take-append-drop, append_assoc, append-nil,
}
use gamegine.Clock.{TickConversion}
use gamegine.LogRecord.{LogRecord}
use gamegine.LineWriter
use gamegine.LineWriter.{LineWriter, view}
use gamegine.LineWriter.Shows.{make-Shows}
use gamegine.LineWriter.Writes.{Writes, whole-Shows}
use gamegine.LogFormat.{append_record, line_text, append_record-Writes}
use gamegine.LogFormat.Columns.{length-line}
use gamegine.Logger.Output.{
  Answer, wrote, interrupted, failed, Output, k_flush_threshold, write_loop, flush, make_room,
  commit, write_record,
}

-- A call that takes a character or is interrupted.
abbrev pub Works : Answer → Type 0
Works (wrote n) = 0 < n
Works interrupted = Unit
Works failed = ⊥

-- All the text so far: what the file has, and what waits in the batch.
abbrev pub said : Output → Text
said o = o.out ++ take o.size o.batch

pub record IsValid (o : Output) : Type 0 where
  pub batch_size : length o.batch ≡ 65536
  pub used : o.size ≤ 65536
  pub works : All Works o.answers

write_loop-Works :
    (answers : List Answer) (pending : Text)
    → All Works answers
    → ((write_loop answers pending).1 ≡ pending) × All Works (write_loop answers pending).0
unfolding write_loop
write_loop-Works [] pending all = (refl, tt)
write_loop-Works (wrote n ∷ answers) pending (h, all) =
    let taken = min n (length pending) in
    let (e, left) = write_loop-Works answers (drop taken pending) all in
    elim (Bool-cases (length pending == 0)) [
      | inl z ↦ rw z (sym (length_zero pending (ground arith)), (h, all))
      | inr z ↦
          let some_taken : (taken == 0) ≡ false = ground arith in
          rw z (
            rw some_taken
              (ap (λ t. take taken pending ++ t) e ∙ take-append-drop taken pending, left))
    ]
write_loop-Works (interrupted ∷ answers) pending (h, all) =
    elim (Bool-cases (length pending == 0)) [
      | inl z ↦ rw z (sym (length_zero pending (ground arith)), (tt, all))
      | inr z ↦ rw z (write_loop-Works answers pending all)
    ]
write_loop-Works (failed ∷ answers) pending (h, all) = absurd h

pub flush-IsValid : (o : Output) → IsValid o → IsValid (flush o) × (said (flush o) ≡ said o)
unfolding flush
flush-IsValid o v =
    let (e, left) = write_loop-Works o.answers (take o.size o.batch) v.works in
    (
      record { batch_size = v.batch_size; used = omega arith; works = left },
      append-nil _ ∙ ap (λ t. o.out ++ t) e,
    )

pub make_room-IsValid :
    (o : Output)
    → IsValid o
    → IsValid (make_room o) × (said (make_room o) ≡ said o) × ((make_room o).size + 8192 ≤ 65536)
unfolding make_room flush
make_room-IsValid o v = elim (Bool-cases (ltb (sub64 (length o.batch) o.size) k_flush_threshold)) [
  | inl e ↦ let (v', same) = flush-IsValid o v in rw e (v', same, omega arith)
  | inr e ↦ rw e (v, refl, ground (arith, v.batch_size, v.used))
]

-- What is put at the front of the free characters is said next.
commit-IsValid :
    (o : Output) (free : Text) (n : ℕ)
    → IsValid o
    → length free ≡ 65536 - o.size
    → n ≤ 65536 - o.size
    → IsValid (commit o free n) × (said (commit o free n) ≡ said o ++ take n free)
commit-IsValid o free n v h fits = (
  record {
    batch_size =
        length-append (take o.size o.batch) free
        ∙ omega (arith, length-take o.size o.batch, v.batch_size, v.used);
    used = omega (arith, v.used);
    works = v.works;
  },
  ap (λ t. o.out ++ t)
        (take-append_add (take o.size o.batch) free n
          (omega (arith, length-take o.size o.batch, v.batch_size, v.used)))
      ∙ sym (append_assoc o.out (take o.size o.batch) (take n free)),
)

take_within : (n : ℕ) (xs ys : Text) → n ≤ length xs → take n (xs ++ ys) ≡ take n xs
take_within n xs ys h =
    let e : n - length xs ≡ 0 = omega arith in take-append n xs ys ∙ rw e (append-nil (take n xs))

-- A line of `f` that fits, written to the free characters but the last `spare`, is said next.
pub write-IsValid :
    (o : Output) (f : LineWriter → LineWriter) (line : Text) (room : ℕ)
    → IsValid o
    → Writes f line
    → length line ≤ room
    → room ≤ 65536 - o.size
    → ((f (LineWriter.make (take room (drop o.size o.batch)))).truncated ≡ false)
      × IsValid (
          commit o
            ((f (LineWriter.make (take room (drop o.size o.batch)))).buffer
              ++ drop room (drop o.size o.batch))
            (f (LineWriter.make (take room (drop o.size o.batch)))).size)
      × (said (
            commit o
              ((f (LineWriter.make (take room (drop o.size o.batch)))).buffer
                ++ drop room (drop o.size o.batch))
              (f (LineWriter.make (take room (drop o.size o.batch)))).size)
          ≡ said o ++ line)
unfolding LineWriter.make view
write-IsValid o f line room v writes short fits =
    let free = drop o.size o.batch in
    let b = take room free in
    let w = f (LineWriter.make b) in
    let free_size : length free ≡ 65536 - o.size =
      omega (arith, length-drop o.size o.batch, v.batch_size) in
    let b_size : length b ≡ room = omega (arith, length-take room free) in
    let (shows, kept) = writes (LineWriter.make b) [] (make-Shows b (omega arith)) in
    let (size, shown, uncut) = whole-Shows shows (omega arith) in
    let (v', e) =
      commit-IsValid o (w.buffer ++ drop room free) w.size v
        (omega (arith, length-append w.buffer (drop room free), length-drop room free))
        (omega arith) in
    (
      uncut,
      v',
      e
          ∙ ap (λ t. said o ++ t)
              (take_within w.size w.buffer (drop room free) (omega arith) ∙ shown),
    )

module _ (float_to_chars : ℕ → Text) (clock : TickConversion) where
  -- While `write(2)` only takes characters or is interrupted, the line of a record is the next text
  -- that the file and the batch hold together, whole, whether the batch is flushed before it or
  -- not.
  pub write_record-said :
      (o : Output) (r : LogRecord) (thread : Text)
      → IsValid o
      → IsValid (write_record float_to_chars clock o r thread)
        × (said (write_record float_to_chars clock o r thread)
            ≡ said o ++ line_text float_to_chars r thread clock)
  unfolding write_record
  write_record-said o r thread v =
      let (v1, same, fits) = make_room-IsValid o v in
      let o1 = make_room o in
      let room : sub64 (length (drop o1.size o1.batch)) 2 ≡ 65536 - o1.size - 2 =
        omega (arith, length-drop o1.size o1.batch, v1.batch_size) in
      let (uncut, v2, e) =
        write-IsValid o1 (λ w. append_record float_to_chars w r thread clock)
          (line_text float_to_chars r thread clock) (65536 - o1.size - 2) v1
          (append_record-Writes float_to_chars r thread clock)
          (omega (arith, length-line float_to_chars r thread clock)) (omega arith) in
      rw room (rw uncut (v2, e ∙ ap (λ t. t ++ line_text float_to_chars r thread clock) same))
