-- ===== src/TransportFactory.antt =====
-- impl/transport/TransportFactory.cpp: the pool, the balancer and the topology of the current cluster.
pub mod Sets
pub mod Servers
pub mod Start
pub mod Clusters
pub mod Adding
pub mod Covers
pub mod Switching
