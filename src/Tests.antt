-- ===== src/Tests.antt =====
-- The theorems applied to concrete values, and the code run on them.
pub mod Words
pub mod Lines
pub mod Logging
mod Running
mod Ending
mod Formatting
mod Ordering
mod Racing
mod Claiming
