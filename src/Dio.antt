-- ===== src/Dio.antt =====
-- gateway/espstation_gateway/transports/sim/dio_link.py: the two-wire digital link.
pub mod Pins
pub mod Crc8
pub mod Framing
pub mod Receiver
pub mod TestFrames
pub mod Monitor
pub mod RateLimit
