-- ===== src/Events.antt =====
-- The events of a server: impl/event and the listeners of impl/operations.
pub mod Read
pub mod Dispatcher
pub mod Layout
pub mod Shrinks
pub mod Runs
pub mod Expired
