-- ===== src/Operations.antt =====
-- impl/operations: the request and the response of each operation on one transport.
pub mod Exchange
pub mod Keys
pub mod Values
pub mod Bulk
pub mod Layout
pub mod Requests
pub mod Sent
pub mod Replies
