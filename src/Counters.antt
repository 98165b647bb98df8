-- ===== src/Counters.antt =====
-- Counters: the operations of impl/operations/CounterOperations.cpp and what api keeps of counters.
pub mod Configuration
pub mod Operations
pub mod RoundTrip
pub mod Replies
pub mod Manager
pub mod Listeners
pub mod Heard
mod Standing
mod Same
pub mod Kept
