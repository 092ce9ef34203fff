-- ===== src/Protocol/Frames.antt =====
-- gateway/espstation_gateway/protocol/frames.py: the frame body, and the serial block made of it.
-- The numbers of a frame are natural: a negative type or version, which `struct` refuses as well,
-- is not modelled.
mod Parts
pub mod Parse
pub mod Corrupted
pub mod Built
use espstation.Common.{
  ℕ, ◌+◌, ◌-◌, ◌%◌, List, [], ◌∷◌, ◌++◌, not, ◌&&◌, ◌==◌, ltb, if◌then◌else◌, Bytes, length, take,
  drop, Result, ok, err, stuck, ◌>>=◌, ◌>>◌, raise_if,
}
use espstation.Protocol.Cobs
use espstation.Protocol.Crc16.{init, crc16_ccitt_false}
use espstation.Protocol.Packed.{le16, u8, u16_le}

abbrev pub header_size : ℕ
header_size = 8

abbrev pub crc_size : ℕ
crc_size = 2

abbrev pub max_payload : ℕ
max_payload = 1024

abbrev pub wire_version : ℕ
wire_version = 1

-- The subclasses of `FrameError`, with their attributes.
pub data FrameError : Type 0 where
  too_short : ℕ → FrameError
  bad_version : ℕ → FrameError
  bad_length : ℕ → ℕ → FrameError
  bad_crc : ℕ → ℕ → FrameError

-- What building a frame raises: `ValueError` of the length, or `struct.error`.
pub data BuildError : Type 0 where
  payload_too_long : ℕ → BuildError
  out_of_range : BuildError

pub record Frame : Type 0 where
  pub type : ℕ
  pub node : ℕ
  pub seq : ℕ
  pub payload : Bytes
  pub ver : ℕ

-- `HEADER_STRUCT.pack`, behind the range checks.
abbrev pub header : ℕ → ℕ → ℕ → ℕ → ℕ → Bytes
header ver type node seq len = ver ∷ type ∷ le16 node ++ le16 seq ++ le16 len

unfoldable pub encode : ℕ → ℕ → ℕ → Bytes → ℕ → Result BuildError Bytes
encode type node seq payload ver = do
  raise_if (ltb max_payload (length payload)) (payload_too_long (length payload))
  raise_if (not (ltb ver 256 && ltb type 256)) out_of_range
  let body = header ver type (node % 0x10000) (seq % 0x10000) (length payload) ++ payload
  ok (body ++ le16 (crc16_ccitt_false body init))

-- `Frame.encode`.
unfoldable pub frame_encode : Frame → Result BuildError Bytes
frame_encode f = encode f.type f.node f.seq f.payload f.ver

-- `cobs_encode(body)` raises nothing, so what it would raise is not an error of this function.
abbrev pub delimit : Result Cobs.CobsError Bytes → Result BuildError Bytes
delimit (ok block) = ok (block ++ 0 ∷ [])
delimit (err _) = stuck
delimit stuck = stuck

unfoldable pub encode_cobs : ℕ → ℕ → ℕ → Bytes → ℕ → Result BuildError Bytes
encode_cobs type node seq payload ver = do
  body ← encode type node seq payload ver
  delimit (Cobs.encode body)

-- `Frame.encode_cobs`.
unfoldable pub frame_encode_cobs : Frame → Result BuildError Bytes
frame_encode_cobs f = encode_cobs f.type f.node f.seq f.payload f.ver

unfoldable pub parse : Bytes → Result FrameError Frame
parse body = do
  raise_if (ltb (length body) (header_size + crc_size)) (too_short (length body))
  let ver = u8 body
  raise_if (not (ver == wire_version)) (bad_version ver)
  let len = u16_le (drop 6 body)
  let available = length body - header_size - crc_size
  raise_if (not (len == available)) (bad_length len available)
  let payload = take len (drop header_size body)
  let crc_on_wire = u16_le (drop (header_size + len) body)
  let crc_computed = crc16_ccitt_false (take (header_size + len) body) init
  raise_if (not (crc_on_wire == crc_computed)) (bad_crc crc_on_wire crc_computed)
  ok (record {
    type = u8 (drop 1 body);
    node = u16_le (drop 2 body);
    seq = u16_le (drop 4 body);
    payload = payload;
    ver = ver;
  })
