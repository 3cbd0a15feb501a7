-- ===== src/SpscRing.antt =====
-- gamegine/include/engine/core/core_spsc_ring.h: a ring between one producer and one consumer.
-- `Value` has the calls as functions, `Valid` and `Refine` what one call does, and `Threads` the
-- interleavings of the two threads' steps, from `Stages`.
pub mod Value
pub mod Slots
pub mod Valid
pub mod Refine
pub mod Calls
pub mod Stages
pub mod Threads
pub mod Moves
pub mod Sees
pub mod Delivery
pub mod Runs
mod Tests
