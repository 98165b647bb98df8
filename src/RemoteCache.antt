-- ===== src/RemoteCache.antt =====
-- A cache of the client between the public API and the operations: impl/RemoteCacheImpl.cpp and
-- impl/operations/OperationsFactory.cpp.
pub mod Factory
pub mod Impl
pub mod Issued
pub mod GetAll
pub mod Found
