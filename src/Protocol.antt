-- ===== src/Protocol.antt =====
-- gateway/espstation_gateway/protocol: the ENLP codec.
pub mod Cobs
pub mod Crc16
pub mod Packed
pub mod Frames
pub mod Streaming
pub mod Messages
pub mod NodeDatabase
