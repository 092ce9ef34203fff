-- ===== src/Transports.antt =====
-- gateway/espstation_gateway/transports: what the transports do with bytes.
pub mod LengthPrefix
pub mod Link
