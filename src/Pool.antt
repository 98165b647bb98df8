-- ===== src/Pool.antt =====
-- impl/transport/tcp/ConnectionPool.cpp: the transports that the client keeps open to each server.
pub mod State
pub mod Borrow
pub mod Return
pub mod Counts
pub mod Lending
pub mod Growth
pub mod Giving
pub mod Reach
pub mod Rounds
pub mod Compat
