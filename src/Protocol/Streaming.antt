-- ===== src/Protocol/Streaming.antt =====
-- gateway/espstation_gateway/protocol/frames.py, `StreamingDecoder`: its state is its buffer.
pub mod Scan
pub mod Chunks
pub mod Delivery
use espstation.Common.{
  ℕ, zero, suc, ◌+◌, List, [], ◌∷◌, ◌++◌, Option, none, some, ◌==◌, if◌then◌else◌, Bytes, length,
  take, drop, Result, ok, err, stuck, ◌>>=◌,
}
use espstation.Protocol.Cobs
use espstation.Protocol.Frames.{Frame, FrameError, parse}

-- What a decoder reports, in the order of arrival: ("frame", f) or ("raw", bytes).
pub data Event : Type 0 where
  frame : Frame → Event
  raw : Bytes → Event

-- `bytearray.find(0x00)`.
pub find_zero : Bytes → Option ℕ
find_zero [] = none
find_zero (x ∷ xs) =
    if x == 0 then some 0 else elim (find_zero xs) [ none ↦ none | some i ↦ some (suc i) ]

-- The `try` round `parse`: `block` is what is reported when it raises.
unfoldable pub parse_or_raw : Bytes → Result FrameError Frame → Event
parse_or_raw block (ok f) = frame f
parse_or_raw block (err _) = raw block
parse_or_raw block stuck = raw block

-- The `try` round `cobs_decode`. Neither call is ever stuck.
pub decoded_or_raw : Bytes → Result Cobs.CobsError Bytes → Event
decoded_or_raw block (ok body) = parse_or_raw block (parse body)
decoded_or_raw block (err _) = raw block
decoded_or_raw block stuck = raw block

pub decode_block : Bytes → Event
decode_block block = decoded_or_raw block (Cobs.decode block)

-- An empty block is no event.
pub block_events : Bytes → List Event
block_events [] = []
block_events (x ∷ xs) = decode_block (x ∷ xs) ∷ []

-- The loop of `feed`, on fuel; it raises nothing.
pub drain : ℕ → Bytes → List Event → Result ⊥ (List Event × Bytes)
drain zero buf events = stuck
drain (suc fuel) buf events = elim (find_zero buf) [
  | none ↦ ok (events, buf)
  | some delim ↦ drain fuel (drop (suc delim) buf) (events ++ block_events (take delim buf))
]

-- The events of a chunk and the new buffer. Each round takes a byte at least.
unfoldable pub feed : Bytes → Bytes → Result ⊥ (List Event × Bytes)
unfolding drain find_zero block_events decode_block decoded_or_raw parse_or_raw
feed buf chunk = drain (suc (length (buf ++ chunk))) (buf ++ chunk) []

-- Chunk after chunk, as a link's pump feeds them.
unfoldable pub feed_all : Bytes → List Bytes → Result ⊥ (List Event × Bytes)
feed_all buf [] = ok ([], buf)
feed_all buf (chunk ∷ chunks) = do
  (events, buf') ← feed buf chunk
  (later, rest) ← feed_all buf' chunks
  ok (events ++ later, rest)

-- On close: what is left is console output, and the buffer is cleared.
unfoldable pub flush : Bytes → List Event × Bytes
flush [] = ([], [])
flush (x ∷ xs) = (raw (x ∷ xs) ∷ [], [])
