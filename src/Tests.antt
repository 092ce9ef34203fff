-- ===== src/Tests.antt =====
-- The components at concrete inputs.
mod Codec
mod Streams
mod DioLink
mod PackedMessages
mod SimLink
mod SimNode
mod Gateway
mod Morse
