-- ===== src/LineWriter.antt =====
-- `LineWriter` of gamegine/include/engine/core/core_format.h: a cursor that appends text to a buffer
-- its caller owns. A character is its byte value; `std::to_chars` of an integer is its decimal text.
mod Defs
mod Numbers
pub mod Plain
mod SwarWord
pub mod CopyPlain
pub mod Swar
pub mod Shows
pub mod Pads
pub mod Hex
pub mod Decimal
pub mod Continued
pub mod Continues
pub mod PlainShows
pub mod Handled
pub mod ContinuedShows
mod Kept
pub mod Writes
pub use Defs.{LineWriter}
unfoldable pub use Defs.{make, room, append, append_repeated, append_char, append_padded}
unfoldable pub use Numbers.{decimal, to_chars, append_decimal, append_hex, append_float}
unfoldable pub use Defs.{append_fitted, view, copy_at}
