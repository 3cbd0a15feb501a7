-- ===== src/Logger/Pieces.antt =====
-- The texts that account for what a producer was given: lines of records, and reports of losses.
use gamegine.Common.{
  ℕ, ◌+◌, List, [], ◌∷◌, ◌++◌, ◌≡◌, refl, sym, ap, ◌∙◌, arith, Text, append_assoc, append-nil,
}
use gamegine.Clock.{TickConversion}
use gamegine.LogRecord.{LogRecord}
use gamegine.LogFormat.{line_text}
use gamegine.Logger.Output.{Output}
use gamegine.Logger.Written
use gamegine.Logger.Written.{said, flush-IsValid}
use gamegine.Logger.Loss.{loss_text}

-- The line of a record, or the line that reports so many lost.
pub data Piece : Type 0 where
  line : Text → LogRecord → Piece
  loss : ℕ → Text → ℕ → Piece

-- How many of the records logged a piece accounts for.
abbrev pub weight : List Piece → ℕ
weight [] = 0
weight (line name r ∷ pieces) = 1 + weight pieces
weight (loss ns name count ∷ pieces) = count + weight pieces

pub weight-append : (ps qs : List Piece) → weight (ps ++ qs) ≡ weight ps + weight qs
weight-append [] qs = omega arith
weight-append (line name r ∷ ps) qs = omega (arith, weight-append ps qs)
weight-append (loss ns name count ∷ ps) qs = omega (arith, weight-append ps qs)

module _ (float_to_chars : ℕ → Text) (clock : TickConversion) where
  abbrev pub text_of : Piece → Text
  text_of (line name r) = line_text float_to_chars r name clock
  text_of (loss ns name count) = loss_text ns name count

  abbrev pub texts : List Piece → Text
  texts [] = []
  texts (piece ∷ pieces) = text_of piece ++ texts pieces

  pub texts-append : (ps qs : List Piece) → texts (ps ++ qs) ≡ texts ps ++ texts qs
  texts-append [] qs = refl
  texts-append (p ∷ ps) qs =
      ap (λ t. text_of p ++ t) (texts-append ps qs)
      ∙ sym (append_assoc (text_of p) (texts ps) (texts qs))

  -- What is said next accounts for so many records.
  pub record Pays (paid : ℕ) (o o' : Output) : Type 0 where
    pub valid : Written.IsValid o'
    pub pieces : List Piece
    pub wrote : said o' ≡ said o ++ texts pieces
    pub weighs : weight pieces ≡ paid

  pub nothing-Pays : (o : Output) → Written.IsValid o → Pays 0 o o
  nothing-Pays o v = record {
    valid = v;
    pieces = [];
    wrote = sym (append-nil (said o));
    weighs = refl;
  }

  pub then-Pays : {n m : ℕ} {o o' o2 : Output} → Pays n o o' → Pays m o' o2 → Pays (n + m) o o2
  then-Pays {o = o} first second = record {
    valid = second.valid;
    pieces = first.pieces ++ second.pieces;
    wrote =
        second.wrote
        ∙ ap (λ t. t ++ texts second.pieces) first.wrote
        ∙ append_assoc (said o) (texts first.pieces) (texts second.pieces)
        ∙ ap (λ t. said o ++ t) (sym (texts-append first.pieces second.pieces));
    weighs = omega (arith, weight-append first.pieces second.pieces, first.weighs, second.weighs);
  }
