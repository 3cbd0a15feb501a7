-- ===== src/Lib.antt =====
-- The core of the engine: packed 64-bit errors and log messages, their text, the clock, and a logger
-- whose threads never wait. All of it is in the headers of gamegine/include/engine/core.
--
-- A thread that logs makes a record of an error or a message (core_log_record.h), stamped with a tick
-- of the clock, and pushes it into its own ring (core_spsc_ring.h); a full ring drops the record and
-- counts it (core_log.h). The logger thread pops every ring, writes each record as a line
-- (core_log_format.h, over core_error_format.h and core_log_message_format.h, which take their names
-- and texts from the two catalogs and write through the LineWriter of core_format.h) into a batch, and
-- hands the batch to write(2).
--
-- Which file models which part:
--   Common            bytes, lists, machine words and their bits, 32-bit two's complement
--   Domain            core_domain.h
--   Error             core_error.h: the value and its fields; Error.Outcome has Result and the macros
--   ErrorCatalog      core_error_catalog.h
--   ErrorFormat       core_error_format.h; Formatter is its std::formatter specializations
--   LineWriter        core_format.h: Defs and Numbers have the appends, Plain the copy eight bytes at a
--                     time; Shows is the contract of an append and Writes joins appends in a row; Swar
--                     and SwarWord are the test of a word for control characters; Continued is
--                     append_continued and Continues what it is to write
--   SpecParsers       core_format.h: the bases of the std::formatter specializations
--   Clock             core_clock.h; Platforms is its code for Apple, Linux and others
--   LogMessage        core_log_message.h
--   LogMessageCatalog core_log_message_catalog.h: Split is LogMessageText, Texts the tables
--   LogMessageFormat  core_log_message_format.h; Formatter is its std::formatter specialization
--   LogRecord         core_log_record.h
--   LogFormat         core_log_format.h; Columns and OneLine are about the line that it writes
--   SpscRing          core_spsc_ring.h: Value has the calls, Calls their refinement of a bounded queue,
--                     Threads the interleaved steps of the two threads and Delivery their invariant; Runs
--                     is the calls as runs of those steps
--   Logger            core_log.h: Producer, Output (the batch and write(2)), Drain (drain_one),
--                     State (the slots, the passes and the locked calls) and Handle; System is a
--                     logger among its threads by whole calls, Complete its invariant and Settled
--                     what a pass and the destructor leave; Watch is what one of them logs,
--                     Position where that is, and InOrder that it comes out; Claims is
--                     registrations by single compare-exchanges; Closing is one thread beside the
--                     logger thread by single loads and pops, Closed its invariant and Rounds what
--                     drain_one is in those steps; Racing goes
--                     down to single atomic steps, those of SpscRing.Threads among them, with Freed
--                     its invariant and LastUse what holds at the free
--   Tests             concrete values
--
-- How the code is read. A character is its byte value. Unsigned arithmetic is on native numbers with
-- the wrap-around written out (add64, sub64, mul64, shl64 of Common.Word). An enumeration has its
-- enumerators, and a constructor unnamed for the values that no enumerator has, but for Phase and
-- RawValue, to which no number is cast. The ring's capacity is
-- 2 ^ k; a slot holds a value of any type, the bytes of a trivially copyable one. The ring's counters
-- may wrap: its invariant compares them by 64-bit differences only. In SpscRing.Threads an atomic load
-- or store and a copy of a value is each a step, and what is written before a release store is seen
-- after the acquire load that reads it. There and in Logger.Racing a load of what the other thread stores
-- may be late: it reads what it read last, what is stored, or a count between. Code that does not compile (a message id with the wrong
-- argument, a text that is not valid), and a call that fails an assertion, is none.
--
-- Loops. Each is structural recursion: over the text, over the values of a batch, over the digits of a
-- number (as many rounds as the number and one more, and a round divides by ten), over as many passes
-- as append_continued has characters, each of which takes one, over the limit of drain_one, over the
-- slots, and over the answers of write(2). Output.answers lists what the next calls of write(2) do; a
-- call after the last of them takes all that it is given, so every run of flush that ends is there, and
-- one that is interrupted forever is not.
--
-- Parameters. std::to_chars of a float is a function from the float's 32 bits to a text. What the clock
-- reads, and the ratio that macOS gives, are arguments (Clock.Platforms).
--
-- Not modelled. The copies of other projects under third_party, the tests, the benchmarks and the scripts
-- are not part of it.
pub mod Common
pub mod SpecParsers
pub mod LineWriter
pub mod Domain
pub mod Error
pub mod ErrorCatalog
pub mod ErrorFormat
pub mod LogMessage
pub mod LogMessageCatalog
pub mod LogMessageFormat
pub mod Clock
pub mod LogRecord
pub mod LogFormat
pub mod SpscRing
pub mod Logger
pub mod Tests
