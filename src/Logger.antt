-- ===== src/Logger.antt =====
-- gamegine/include/engine/core/core_log.h: the logger. `Output` is the batch and `write(2)`, `Producer`
-- one thread's ring and counts, `Drain` what the logger thread does with one producer, `State` the slots
-- and the passes over them, `Handle` the right to log. `System` is a logger among its threads by whole
-- calls, `Watch` one thread along them, `Claims` registrations beside one another, and `Closing` and
-- `Racing` one thread beside the logger thread, by single calls on its producer and by single atomic
-- steps.
pub mod Output
pub mod Written
pub mod Producer
pub mod Drain
pub mod Drained
pub mod Ledger
pub mod Loss
pub mod State
pub mod Handle
pub mod Closing
pub mod Knows
pub mod Closed
pub mod Rounds
pub mod Racing
pub mod Raced
pub mod Freed
pub mod LastUse
pub mod System
pub mod Owners
pub mod Account
pub mod Handles
pub mod Pieces
pub mod Entries
pub mod Paid
pub mod Slots
pub mod Watch
pub mod Position
pub mod Leaves
pub mod Told
pub mod PassTold
pub mod Ordered
pub mod Followed
pub mod InOrder
pub mod Claims
pub mod Claimed
pub mod ClaimRuns
pub mod Sized
pub mod Outcomes
pub mod Burst
pub mod Passes
pub mod Registered
pub mod Accounted
pub mod Complete
pub mod Settled
