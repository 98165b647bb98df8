-- ===== src/Api.antt =====
-- The public API of a cache: include/infinispan/hotrod/RemoteCache.h.
pub mod Answers
pub mod Seconds
pub mod Methods
pub mod Async
pub mod Agreement
