-- ===== src/Protocol.antt =====
-- The wire data of the protocol package.
pub mod Messages
pub mod Mapping
pub mod Auth
pub mod Decoding
mod Tests
