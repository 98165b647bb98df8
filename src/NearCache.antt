-- ===== src/NearCache.antt =====
-- impl/NearRemoteCacheImpl.h: the entries that a remote cache keeps near, with an eviction queue.
pub mod Map
pub mod Operations
pub mod Queue
pub mod Bound
pub mod Contents
pub mod Calls
