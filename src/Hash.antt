-- ===== src/Hash.antt =====
-- impl/hash/MurmurHash3.cpp and impl/consistenthash/SegmentConsistentHash: the hash of a key and the
-- segment that it falls in.
pub mod Murmur
pub mod Segments
pub mod IntKey
pub mod IntHash
pub mod Routing
