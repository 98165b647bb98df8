-- ===== src/Transactions.antt =====
-- Transactions of a thread over the caches that take part in it.
pub mod Context
pub mod Entries
pub mod Remote
pub mod Manager
pub mod Verdict
pub mod Ends
pub mod Threads
pub mod Prepared
pub mod Cache
pub mod Versioned
pub mod Overlay
pub mod Steps
pub mod GetPut
pub mod Operations
pub mod Refines
pub mod Hidden
