-- ===== src/Managers.antt =====
-- The managers of caches: impl/RemoteCacheManagerImpl.cpp and the public
-- include/infinispan/hotrod/RemoteCacheManager.h over it.
pub mod Impl
pub mod Names
pub mod Keeps
pub mod Steps
pub mod Connected
pub mod Creating
pub mod Reach
pub mod Made
pub mod Kept
pub mod Caches
pub mod Again
