-- ===== src/Logger/Drained.antt =====
-- What is written of a producer's records, and what is left of them.
use gamegine.Common.{
  ℕ, zero, suc, min, List, [], ◌∷◌, ◌++◌, ◌≡◌, refl, sym, ap, ap₂, ◌∙◌, arith, Text, length, take,
  drop, append_assoc, append-nil,
}
use gamegine.Clock.{TickConversion}
use gamegine.LogRecord.{LogRecord}
use gamegine.LogFormat.{line_text}
use gamegine.SpscRing.Valid
use gamegine.SpscRing.Valid.{contents, length-contents}
use gamegine.SpscRing.Calls.{try_pop_lem}
use gamegine.SpscRing.Refine.{dequeue}
use gamegine.Logger.Output.{Output, write_record}
use gamegine.Logger.Written
use gamegine.Logger.Written.{said, write_record-said}
use gamegine.Logger.Producer.{Producer, pop, blank, k_ring_bits}
use gamegine.Logger.Drain.{pop_loop}

-- The records that a producer's ring holds, oldest first.
abbrev pub waiting : Producer → List LogRecord
waiting p = contents blank k_ring_bits p.ring

-- What a pop gives, by what was waiting.
pub pop-waiting :
    (p : Producer) (q : List LogRecord)
    → waiting p ≡ q
    → Valid.IsValid k_ring_bits p.ring
    → ((pop p).0 ≡ (dequeue q).0)
      × Valid.IsValid k_ring_bits (pop p).1.ring
      × (waiting (pop p).1 ≡ (dequeue q).1)
unfolding pop
pop-waiting p q e v =
    let t = try_pop_lem blank k_ring_bits p.ring v in
    (t.answer ∙ ap (λ l. (dequeue l).0) e, t.left.valid, t.left.holds ∙ ap (λ l. (dequeue l).1) e)

pub pop-kept :
    (p : Producer)
    → ((pop p).1.dropped ≡ p.dropped)
      × ((pop p).1.reported ≡ p.reported)
      × ((pop p).1.name ≡ p.name)
      × ((pop p).1.phase ≡ p.phase)
unfolding pop
pop-kept p = (refl, refl, refl, refl)

module _ (float_to_chars : ℕ → Text) (clock : TickConversion) where
  -- The lines of records, one after the other.
  abbrev pub lines : Text → List LogRecord → Text
  lines name [] = []
  lines name (r ∷ records) = line_text float_to_chars r name clock ++ lines name records

  -- What so many rounds leave: the lines of as many records are said, and those records are gone.
  pub record Drained (rounds : ℕ) (p : Producer) (o : Output) (result : ℕ × Producer × Output)
      : Type 0 where
    pub counted : result.0 ≡ min rounds (length (waiting p))
    pub ring_valid : Valid.IsValid k_ring_bits result.1.ring
    pub left : waiting result.1 ≡ drop rounds (waiting p)
    pub kept :
        (result.1.dropped ≡ p.dropped)
        × (result.1.reported ≡ p.reported)
        × (result.1.name ≡ p.name)
        × (result.1.phase ≡ p.phase)
    pub output_valid : Written.IsValid result.2
    pub wrote : said result.2 ≡ said o ++ lines p.name (take rounds (waiting p))

  round-Drained :
      (rounds : ℕ) (p : Producer) (o : Output) (q : List LogRecord)
      → waiting p ≡ q
      → Valid.IsValid k_ring_bits p.ring
      → Written.IsValid o
      → ((r : LogRecord)
          → Drained rounds (pop p).1 (write_record float_to_chars clock o r p.name) (
              pop_loop float_to_chars clock rounds
                (pop p).1
                (write_record float_to_chars clock o r p.name)))
      → Drained (suc rounds) p o (pop_loop float_to_chars clock (suc rounds) p o)
  unfolding pop_loop dequeue
  round-Drained rounds p o [] e v vo rest =
      let (got, ring_valid, left) = pop-waiting p [] e v in
      rw got (record {
        counted = omega (arith, ap length e);
        ring_valid = ring_valid;
        left = left ∙ sym (ap (drop (suc rounds)) e);
        kept = pop-kept p;
        output_valid = vo;
        wrote =
            sym (ap (λ l. said o ++ lines p.name (take (suc rounds) l)) e ∙ append-nil (said o));
      })
  round-Drained rounds p o (r ∷ q) e v vo rest =
      let (got, ring_valid, left) = pop-waiting p (r ∷ q) e v in
      let d = rest r in
      let (dropped, reported, name, phase) = pop-kept p in
      rw got (record {
        counted = ap suc d.counted ∙ omega (arith, ap length e, ap length left);
        ring_valid = d.ring_valid;
        left = d.left ∙ ap (drop rounds) left ∙ sym (ap (drop (suc rounds)) e);
        kept = (d.kept.0 ∙ dropped, d.kept.1 ∙ reported, d.kept.2 ∙ name, d.kept.3 ∙ phase);
        output_valid = d.output_valid;
        wrote =
            d.wrote
            ∙ ap₂
                (λ n l.
                  said (write_record float_to_chars clock o r p.name) ++ lines n (take rounds l))
                name left
            ∙ ap (λ t. t ++ lines p.name (take rounds q))
                (write_record-said float_to_chars clock o r p.name vo).1
            ∙ append_assoc (said o) (line_text float_to_chars r p.name clock)
                (lines p.name (take rounds q))
            ∙ ap (λ l. said o ++ lines p.name (take (suc rounds) l)) (sym e);
      })

  -- Of a producer with a valid ring, and while `write(2)` only takes characters or is interrupted,
  -- the loop of `drain_one` writes the lines of the oldest records, as many as it has rounds, in
  -- their order, takes those records and no others from the ring, and counts them.
  pub pop_loop-Drained :
      (rounds : ℕ) (p : Producer) (o : Output)
      → Valid.IsValid k_ring_bits p.ring
      → Written.IsValid o
      → Drained rounds p o (pop_loop float_to_chars clock rounds p o)
  unfolding pop_loop dequeue
  pop_loop-Drained zero p o v vo = record {
    counted = omega arith;
    ring_valid = v;
    left = refl;
    kept = (refl, refl, refl, refl);
    output_valid = vo;
    wrote = sym (append-nil (said o));
  }
  pop_loop-Drained (suc rounds) p o v vo = round-Drained rounds p o (waiting p) refl v vo (λ r.
      pop_loop-Drained rounds (pop p).1 (write_record float_to_chars clock o r p.name)
        (pop-waiting p (waiting p) refl v).1
        (write_record-said float_to_chars clock o r p.name vo).0)
