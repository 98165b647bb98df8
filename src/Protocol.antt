-- ===== src/Protocol.antt =====
-- The headers of requests and responses (impl/protocol).
pub mod OpCodes
pub mod Topology
pub mod Layout
pub mod Header
pub mod Exchange
pub mod Effect
pub mod Params
