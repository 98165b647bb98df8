-- ===== src/Marshallers.antt =====
-- The marshallers of include/infinispan/hotrod that are written in this repository.
pub mod Basic
pub mod RoundTrip
