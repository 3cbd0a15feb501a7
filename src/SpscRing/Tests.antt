-- ===== src/SpscRing/Tests.antt =====
-- The ring of two slots, run.
use gamegine.Common.{ℕ, ◌^◌, ◌++◌, false, some, [], ◌∷◌, ◌≡◌, ◌≤◌, length, refl, arith}
use mathlib.Core.Logic.{◌≢◌}
use gamegine.SpscRing.Value.{
  Ring, slot, fresh, write_slot, store_head, try_push, try_push_all, try_pop,
}
use gamegine.SpscRing.Valid.{IsValid, contents, fresh-IsValid}
use gamegine.SpscRing.Refine.{enqueue, enqueue_all, dequeue}
use gamegine.SpscRing.Calls.{Refines, try_push_lem, try_push_all_lem, try_pop_lem}
use gamegine.SpscRing.Stages.{System, outside, filling, away, seen}
use gamegine.SpscRing.Threads.{
  find_room_all, start, Reachable, at_start, then_step, find_room, copy_in, publish,
  load_head_value,
}
use gamegine.SpscRing.Delivery.{Reachable-delivers, Reachable-no_race}

abbrev empty : Ring ℕ
empty = fresh 0 1

abbrev one : Ring ℕ
one = (try_push 1 empty 7).1

abbrev two : Ring ℕ
two = (try_push 1 one 8).1

empty-IsValid : IsValid 1 empty
empty-IsValid = (fresh-IsValid 0 1 (omega arith)).0

one-IsValid : IsValid 1 one
one-IsValid = (try_push_lem 0 1 empty 7 empty-IsValid).left.valid

two-IsValid : IsValid 1 two
two-IsValid = (try_push_lem 0 1 one 8 one-IsValid).left.valid

third_refused : (try_push 1 two 9).0 ≡ false
unfolding try_push fresh
third_refused = refl

oldest_first : (try_pop 0 1 two).0 ≡ some 7
unfolding try_push try_pop fresh
oldest_first = refl

try_push_lem_example : Refines 0 1 (try_push 1 two 9) (enqueue 1 (contents 0 1 two) 9)
try_push_lem_example = try_push_lem 0 1 two 9 two-IsValid

try_push_all_lem_example :
    Refines 0 1 (try_push_all 1 one (8 ∷ 9 ∷ [])) (enqueue_all 1 (contents 0 1 one) (8 ∷ 9 ∷ []))
try_push_all_lem_example = try_push_all_lem 0 1 one (8 ∷ 9 ∷ []) one-IsValid

try_pop_lem_example : Refines 0 1 (try_pop 0 1 two) (dequeue (contents 0 1 two))
try_pop_lem_example = try_pop_lem 0 1 two two-IsValid

-- One value pushed; then the producer has room for another while the consumer has seen the first.
abbrev filled : Ring ℕ
filled = store_head 1 (write_slot 1 empty 0 7) 1

abbrev pushed_one : System ℕ
pushed_one = record {
  ring = filled;
  producer = outside;
  consumer = away;
  pushed = 7 ∷ [];
  popped = [];
}

-- The producer has a batch of one to copy while the consumer has a value to copy.
abbrev both_inside : System ℕ
both_inside = record {
  ring = record filled { cached_head = 1 };
  producer = filling [] (8 ∷ []);
  consumer = seen;
  pushed = 7 ∷ [];
  popped = [];
}

pushed_one-Reachable : Reachable 0 1 pushed_one
unfolding start fresh
pushed_one-Reachable =
    then_step _ _
      (then_step _ _ (then_step _ _ at_start (find_room empty away [] [] 7 refl))
        (copy_in empty away [] [] 7))
      (publish (write_slot 1 empty 0 7) away [] [] 7)

both_inside-Reachable : Reachable 0 1 both_inside
unfolding fresh
both_inside-Reachable =
    then_step _ _
      (then_step _ _ pushed_one-Reachable
        (find_room_all filled away (7 ∷ []) [] (8 ∷ []) refl refl))
      (load_head_value filled (filling [] (8 ∷ [])) (7 ∷ []) [] 1
        (record { fits = omega arith; stored = omega arith; later = omega arith }) refl refl)

Reachable-delivers_example :
    (pushed_one.pushed ≡ pushed_one.popped ++ contents 0 1 pushed_one.ring)
    × (length (contents 0 1 pushed_one.ring) ≤ 2 ^ 1)
Reachable-delivers_example = Reachable-delivers 0 1 pushed_one (omega arith) pushed_one-Reachable

Reachable-no_race_example : slot 1 1 ≢ slot 1 both_inside.ring.tail
Reachable-no_race_example =
    Reachable-no_race 0 1 both_inside 1 (omega arith) both_inside-Reachable refl refl
