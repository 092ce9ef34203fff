-- ===== src/Morse.antt =====
-- gateway/espstation_gateway/transports/sim/morse_link.py: the Morse link's table, decoder and key.
pub mod Table
pub mod Clock
pub mod Decoder
pub mod Key
