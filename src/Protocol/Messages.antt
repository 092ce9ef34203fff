-- ===== src/Protocol/Messages.antt =====
-- gateway/espstation_gateway/protocol/messages.py: the packed messages of fixed shape. The fields that
-- `struct` packs are natural numbers, but for `rssi`, which has a sign; a negative number in another
-- field, which `struct` refuses as well, is not modelled.
pub mod Fields
pub mod RoundTrips
pub mod Logs
use espstation.Common.{
  ℕ, ◌+◌, ◌-◌, List, [], ◌∷◌, ◌++◌, not, ◌==◌, ltb, if◌then◌else◌, Bytes, length, drop, Result, ok,
  err, stuck, ◌>>=◌, ◌>>◌, raise_if,
}
use espstation.Protocol.Messages.Fields.{ℤ, pos, negsuc, PackError, pack, i8_value, read, read_i8}

-- The cases in which `MessageDecodeError` is raised, with the sizes that its text tells.
pub data MessageDecodeError : Type 0 where
  wrong_size : ℕ → ℕ → MessageDecodeError
  shorter_than_header : ℕ → MessageDecodeError

pub record Heartbeat : Type 0 where
  pub uptime_ms : ℕ
  pub heap_free : ℕ
  pub heap_min : ℕ
  pub state : ℕ
  pub flags : ℕ
  pub rssi : ℤ
  pub reserved : ℕ

unfoldable pub heartbeat_to_bytes : Heartbeat → Result PackError Bytes
heartbeat_to_bytes h = pack (
    (4, h.uptime_ms)
    ∷ (4, h.heap_free)
    ∷ (4, h.heap_min)
    ∷ (1, h.state)
    ∷ (1, h.flags)
    ∷ (1, i8_value h.rssi)
    ∷ (1, h.reserved)
    ∷ [])

unfoldable pub heartbeat_from_bytes : Bytes → Result MessageDecodeError Heartbeat
heartbeat_from_bytes bytes = do
  raise_if (not (length bytes == 16)) (wrong_size 16 (length bytes))
  let (uptime, rest) = read 4 bytes
  let (heap_free, rest) = read 4 rest
  let (heap_min, rest) = read 4 rest
  let (state, rest) = read 1 rest
  let (flags, rest) = read 1 rest
  let (rssi, rest) = read_i8 rest
  let (reserved, _) = read 1 rest
  ok (record {
    uptime_ms = uptime;
    heap_free = heap_free;
    heap_min = heap_min;
    state = state;
    flags = flags;
    rssi = rssi;
    reserved = reserved;
  })

pub record TelemAck : Type 0 where
  pub node : ℕ
  pub last_seq : ℕ
  pub flags : ℕ

unfoldable pub telem_ack_to_bytes : TelemAck → Result PackError Bytes
telem_ack_to_bytes a = pack ((2, a.node) ∷ (2, a.last_seq) ∷ (2, a.flags) ∷ [])

unfoldable pub telem_ack_from_bytes : Bytes → Result MessageDecodeError TelemAck
telem_ack_from_bytes bytes = do
  raise_if (not (length bytes == 6)) (wrong_size 6 (length bytes))
  let (node, rest) = read 2 bytes
  let (last_seq, rest) = read 2 rest
  let (flags, _) = read 2 rest
  ok (record { node = node; last_seq = last_seq; flags = flags })

pub record BulkChunk : Type 0 where
  pub index : ℕ
  pub content : Bytes

unfoldable pub bulk_chunk_to_bytes : BulkChunk → Result PackError Bytes
bulk_chunk_to_bytes c = do head ← pack ((2, c.index) ∷ []); ok (head ++ c.content)

unfoldable pub bulk_chunk_from_bytes : Bytes → Result MessageDecodeError BulkChunk
bulk_chunk_from_bytes bytes = do
  raise_if (ltb (length bytes) 2) (shorter_than_header (length bytes))
  let (index, content) = read 2 bytes
  ok (record { index = index; content = content })

pub record TimeSync : Type 0 where
  pub t1_host_us : ℕ
  pub t2_node_ms : ℕ
  pub t3_node_ms : ℕ
  pub reserved : ℕ

unfoldable pub time_sync_to_bytes : TimeSync → Result PackError Bytes
time_sync_to_bytes t =
    pack ((8, t.t1_host_us) ∷ (4, t.t2_node_ms) ∷ (4, t.t3_node_ms) ∷ (8, t.reserved) ∷ [])

unfoldable pub time_sync_from_bytes : Bytes → Result MessageDecodeError TimeSync
time_sync_from_bytes bytes = do
  raise_if (not (length bytes == 24)) (wrong_size 24 (length bytes))
  let (t1, rest) = read 8 bytes
  let (t2, rest) = read 4 rest
  let (t3, rest) = read 4 rest
  let (reserved, _) = read 8 rest
  ok (record { t1_host_us = t1; t2_node_ms = t2; t3_node_ms = t3; reserved = reserved })
