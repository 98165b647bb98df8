-- ===== src/Wire.antt =====
-- The byte stream of a transport: impl/transport/AbstractTransport.cpp and
-- impl/transport/tcp/TcpTransport.cpp. A stream is the list of bytes still to come.
pub mod Stream
pub mod Write
pub mod Read
pub mod VarInt
pub mod Fixed
pub mod Arrays
pub mod Shrinks
