-- ===== src/Protocol.antt =====
-- The wire protocol (protocol/): header, message, checksum, encoder and decoder.
pub mod Header
pub mod Crc
pub mod Message
pub mod Decoder
pub mod Body
