-- ===== src/Logger/Entries.antt =====
-- The pieces of a log, with those of one producer marked.
use gamegine.Common.{
  ℕ, ◌+◌, List, [], ◌∷◌, ◌++◌, ◌≡◌, refl, sym, ap, ap₂, ◌∙◌, arith, Text, append_assoc,
}
use gamegine.Clock.{TickConversion}
use gamegine.LogRecord.{LogRecord}
use gamegine.Logger.Output.{Output}
use gamegine.Logger.Written
use gamegine.Logger.Written.{said}
use gamegine.Logger.Pieces.{Piece, weight, weight-append, texts, texts-append, Pays}

-- A line of the producer, a report of its losses, or a piece of another one.
pub data Entry : Type 0 where
  own_line : LogRecord → Entry
  own_loss : ℕ → ℕ → Entry
  other : Piece → Entry

-- What an entry is in the log, by the producer's name.
abbrev piece_of : Text → Entry → Piece
piece_of name (own_line r) = Piece.line name r
piece_of name (own_loss ns count) = Piece.loss ns name count
piece_of name (other piece) = piece

abbrev pub shown : Text → List Entry → List Piece
shown name [] = []
shown name (entry ∷ entries) = piece_of name entry ∷ shown name entries

-- The producer's records, in the order of their lines.
abbrev pub own_records : List Entry → List LogRecord
own_records [] = []
own_records (own_line r ∷ entries) = r ∷ own_records entries
own_records (own_loss ns count ∷ entries) = own_records entries
own_records (other piece ∷ entries) = own_records entries

-- How many records the reports say that it lost.
abbrev pub own_losses : List Entry → ℕ
own_losses [] = 0
own_losses (own_line r ∷ entries) = own_losses entries
own_losses (own_loss ns count ∷ entries) = count + own_losses entries
own_losses (other piece ∷ entries) = own_losses entries

abbrev others : List Piece → List Entry
others [] = []
others (piece ∷ pieces) = other piece ∷ others pieces

shown-others : (name : Text) (pieces : List Piece) → shown name (others pieces) ≡ pieces
shown-others name [] = refl
shown-others name (piece ∷ pieces) = ap (λ ps. piece ∷ ps) (shown-others name pieces)

own_records-others : (pieces : List Piece) → own_records (others pieces) ≡ []
own_records-others [] = refl
own_records-others (piece ∷ pieces) = own_records-others pieces

own_losses-others : (pieces : List Piece) → own_losses (others pieces) ≡ 0
own_losses-others [] = refl
own_losses-others (piece ∷ pieces) = own_losses-others pieces

pub shown-append :
    (name : Text) (es fs : List Entry) → shown name (es ++ fs) ≡ shown name es ++ shown name fs
shown-append name [] fs = refl
shown-append name (e ∷ es) fs = ap (λ ps. piece_of name e ∷ ps) (shown-append name es fs)

pub own_records-append :
    (es fs : List Entry) → own_records (es ++ fs) ≡ own_records es ++ own_records fs
own_records-append [] fs = refl
own_records-append (own_line r ∷ es) fs = ap (λ rs. r ∷ rs) (own_records-append es fs)
own_records-append (own_loss ns count ∷ es) fs = own_records-append es fs
own_records-append (other piece ∷ es) fs = own_records-append es fs

pub own_losses-append : (es fs : List Entry) → own_losses (es ++ fs) ≡ own_losses es + own_losses fs
own_losses-append [] fs = omega arith
own_losses-append (own_line r ∷ es) fs = own_losses-append es fs
own_losses-append (own_loss ns count ∷ es) fs = omega (arith, own_losses-append es fs)
own_losses-append (other piece ∷ es) fs = own_losses-append es fs

module _ (float_to_chars : ℕ → Text) (clock : TickConversion) where
  -- What is said next accounts for so many records, tells these of the producer in this order, and
  -- so many of its losses.
  pub record Tells (name : Text) (paid : ℕ) (records : List LogRecord) (losses : ℕ) (o o' : Output)
      : Type 0 where
    pub valid : Written.IsValid o'
    pub entries : List Entry
    pub wrote : said o' ≡ said o ++ texts float_to_chars clock (shown name entries)
    pub weighs : weight (shown name entries) ≡ paid
    pub told : own_records entries ≡ records
    pub lost : own_losses entries ≡ losses

  -- What others say.
  pub others_tell :
      (name : Text) {paid : ℕ} {o o' : Output}
      → Pays float_to_chars clock paid o o'
      → Tells name paid [] 0 o o'
  others_tell name {o = o} pays =
      let same = shown-others name pays.pieces in
      record {
        valid = pays.valid;
        entries = others pays.pieces;
        wrote = pays.wrote ∙ ap (λ ps. said o ++ texts float_to_chars clock ps) (sym same);
        weighs = ap weight same ∙ pays.weighs;
        told = own_records-others pays.pieces;
        lost = own_losses-others pays.pieces;
      }

  pub forgets :
      {name : Text} {paid : ℕ} {records : List LogRecord} {losses : ℕ} {o o' : Output}
      → Tells name paid records losses o o'
      → Pays float_to_chars clock paid o o'
  forgets {name = name} tells = record {
    valid = tells.valid;
    pieces = shown name tells.entries;
    wrote = tells.wrote;
    weighs = tells.weighs;
  }

  pub then-Tells :
      {name : Text} {n m : ℕ} {rs qs : List LogRecord} {a b : ℕ} {o o' o2 : Output}
      → Tells name n rs a o o'
      → Tells name m qs b o' o2
      → Tells name (n + m) (rs ++ qs) (a + b) o o2
  then-Tells {name = name} {o = o} first second =
      let es = first.entries in
      let fs = second.entries in
      let both = shown-append name es fs in
      let said_of : List Piece → Text = texts float_to_chars clock in
      record {
        valid = second.valid;
        entries = es ++ fs;
        wrote =
            second.wrote
            ∙ ap (λ t. t ++ said_of (shown name fs)) first.wrote
            ∙ append_assoc (said o) (said_of (shown name es)) (said_of (shown name fs))
            ∙ ap (λ t. said o ++ t)
                (sym (texts-append float_to_chars clock (shown name es) (shown name fs))
                  ∙ ap said_of (sym both));
        weighs = omega (
          arith,
          ap weight both,
          weight-append (shown name es) (shown name fs),
          first.weighs,
          second.weighs,
        );
        told = own_records-append es fs ∙ ap₂ ◌++◌ first.told second.told;
        lost = omega (arith, own_losses-append es fs, first.lost, second.lost);
      }
