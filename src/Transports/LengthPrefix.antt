-- ===== src/Transports/LengthPrefix.antt =====
-- gateway/espstation_gateway/transports/tcp.py: framing by a length prefix. The decoder's state is
-- its buffer.
pub mod Steps
pub mod Chunks
pub mod Delivery
use espstation.Common.{
  ℕ, zero, suc, ◌+◌, List, [], ◌∷◌, ◌++◌, ltb, if◌then◌else◌, Bytes, length, take, drop, Result, ok,
  err, stuck, ◌>>=◌, ◌>>◌, raise_if,
}
use espstation.Protocol.Packed.{be16, u16_be}
use espstation.Protocol.Frames.{parse}
use espstation.Protocol.Streaming.{Event, frame, raw, parse_or_raw}

-- `_LEN_STRUCT.size`.
abbrev pub len_size : ℕ
len_size = 2

-- The loop of `feed`, on fuel; it raises nothing.
pub drain : ℕ → Bytes → List Event → Result ⊥ (List Event × Bytes)
drain zero buf events = stuck
drain (suc fuel) buf events =
    let total = len_size + u16_be buf in
    let body = take (u16_be buf) (drop len_size buf) in
    let rest = drain fuel (drop total buf) (events ++ parse_or_raw body (parse body) ∷ []) in
    if ltb (length buf) len_size
    then ok (events, buf)
    else if ltb (length buf) total
    then ok (events, buf)
    else rest

-- The events of a chunk and the new buffer. Each round takes two bytes at least.
unfoldable pub feed : Bytes → Bytes → Result ⊥ (List Event × Bytes)
unfolding drain
feed buf chunk = drain (suc (length (buf ++ chunk))) (buf ++ chunk) []

-- Chunk after chunk, as a link's pump feeds them.
unfoldable pub feed_all : Bytes → List Bytes → Result ⊥ (List Event × Bytes)
feed_all buf [] = ok ([], buf)
feed_all buf (chunk ∷ chunks) = do
  (events, buf') ← feed buf chunk
  (later, rest) ← feed_all buf' chunks
  ok (events ++ later, rest)

unfoldable pub flush : Bytes → List Event × Bytes
flush [] = ([], [])
flush (x ∷ xs) = (raw (x ∷ xs) ∷ [], [])

-- The `ValueError` of a body that is too large.
pub data PrefixError : Type 0 where
  body_too_large : ℕ → PrefixError

unfoldable pub encode_length_prefixed : Bytes → Result PrefixError Bytes
encode_length_prefixed frame_body = do
  raise_if (ltb 0xffff (length frame_body)) (body_too_large (length frame_body))
  ok (be16 (length frame_body) ++ frame_body)
