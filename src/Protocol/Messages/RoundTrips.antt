-- ===== src/Protocol/Messages/RoundTrips.antt =====
-- messages.py: the packed messages of fixed shape, packed and unpacked.
use espstation.Common.{
  ℕ, ◌+◌, ◌^◌, ◌<◌, ◌≡◌, refl, arith, List, [], ◌∷◌, ◌++◌, false, ltb, length-append, append-nil,
  Bytes, length, ok,
}
use espstation.Protocol.Messages.Fields.{
  IsI8, packed, i8_value, read_i8, read-to_le, pack-fits, length-packed, i8_value-fits,
  signed-i8_value, to_le, length-to_le,
}
use espstation.Protocol.Messages.{
  Heartbeat, heartbeat_to_bytes, heartbeat_from_bytes, TelemAck, telem_ack_to_bytes,
  telem_ack_from_bytes, BulkChunk, bulk_chunk_to_bytes, bulk_chunk_from_bytes, TimeSync,
  time_sync_to_bytes, time_sync_from_bytes,
}

pub record IsHeartbeat (h : Heartbeat) : Type 0 where
  pub uptime_fits : h.uptime_ms < 256 ^ 4
  pub heap_free_fits : h.heap_free < 256 ^ 4
  pub heap_min_fits : h.heap_min < 256 ^ 4
  pub state_fits : h.state < 256
  pub flags_fits : h.flags < 256
  pub rssi_fits : IsI8 h.rssi
  pub reserved_fits : h.reserved < 256

-- A heartbeat whose fields are in range is packed into 16 bytes, and unpacking them gives it back,
-- the sign of its rssi included.
pub heartbeat-roundtrip :
    (h : Heartbeat)
    → IsHeartbeat h
    → (bytes : Bytes) × (heartbeat_to_bytes h ≡ ok bytes)
      × (length bytes ≡ 16)
      × (heartbeat_from_bytes bytes ≡ ok h)
unfolding heartbeat_to_bytes heartbeat_from_bytes read_i8
heartbeat-roundtrip h r =
    let low : i8_value h.rssi < 256 = i8_value-fits h.rssi r.rssi_fits in
    let t6 : List (ℕ × ℕ) = (1, h.reserved) ∷ [] in
    let t5 : List (ℕ × ℕ) = (1, i8_value h.rssi) ∷ t6 in
    let t4 : List (ℕ × ℕ) = (1, h.flags) ∷ t5 in
    let t3 : List (ℕ × ℕ) = (1, h.state) ∷ t4 in
    let t2 : List (ℕ × ℕ) = (4, h.heap_min) ∷ t3 in
    let t1 : List (ℕ × ℕ) = (4, h.heap_free) ∷ t2 in
    let fields : List (ℕ × ℕ) = (4, h.uptime_ms) ∷ t1 in
    let size : length (packed fields) ≡ 16 = length-packed fields in
    let r0 = read-to_le 4 h.uptime_ms (packed t1) r.uptime_fits in
    let r1 = read-to_le 4 h.heap_free (packed t2) r.heap_free_fits in
    let r2 = read-to_le 4 h.heap_min (packed t3) r.heap_min_fits in
    let r3 = read-to_le 1 h.state (packed t4) r.state_fits in
    let r4 = read-to_le 1 h.flags (packed t5) r.flags_fits in
    let r5 = read-to_le 1 (i8_value h.rssi) (packed t6) low in
    let r6 = read-to_le 1 h.reserved [] r.reserved_fits in
    let sign = signed-i8_value h.rssi r.rssi_fits in
    (
      packed fields,
      pack-fits fields (
        r.uptime_fits,
        (
          r.heap_free_fits,
          (r.heap_min_fits, (r.state_fits, (r.flags_fits, (low, (r.reserved_fits, tt))))),
        ),
      ),
      size,
      rw size (rw r0 (rw r1 (rw r2 (rw r3 (rw r4 (rw r5 (rw r6 (rw sign refl)))))))),
    )

pub record IsTelemAck (a : TelemAck) : Type 0 where
  pub node_fits : a.node < 256 ^ 2
  pub last_seq_fits : a.last_seq < 256 ^ 2
  pub flags_fits : a.flags < 256 ^ 2

-- An acknowledgement whose fields are in range is packed into 6 bytes, and unpacking them gives it
-- back.
pub telem_ack-roundtrip :
    (a : TelemAck)
    → IsTelemAck a
    → (bytes : Bytes) × (telem_ack_to_bytes a ≡ ok bytes)
      × (length bytes ≡ 6)
      × (telem_ack_from_bytes bytes ≡ ok a)
unfolding telem_ack_to_bytes telem_ack_from_bytes
telem_ack-roundtrip a r =
    let t2 : List (ℕ × ℕ) = (2, a.flags) ∷ [] in
    let t1 : List (ℕ × ℕ) = (2, a.last_seq) ∷ t2 in
    let fields : List (ℕ × ℕ) = (2, a.node) ∷ t1 in
    let size : length (packed fields) ≡ 6 = length-packed fields in
    let r0 = read-to_le 2 a.node (packed t1) r.node_fits in
    let r1 = read-to_le 2 a.last_seq (packed t2) r.last_seq_fits in
    let r2 = read-to_le 2 a.flags [] r.flags_fits in
    (
      packed fields,
      pack-fits fields (r.node_fits, (r.last_seq_fits, (r.flags_fits, tt))),
      size,
      rw size (rw r0 (rw r1 (rw r2 refl))),
    )

pub record IsTimeSync (t : TimeSync) : Type 0 where
  pub t1_fits : t.t1_host_us < 256 ^ 8
  pub t2_fits : t.t2_node_ms < 256 ^ 4
  pub t3_fits : t.t3_node_ms < 256 ^ 4
  pub reserved_fits : t.reserved < 256 ^ 8

-- A clock message whose fields are in range is packed into 24 bytes, and unpacking them gives it back.
pub time_sync-roundtrip :
    (t : TimeSync)
    → IsTimeSync t
    → (bytes : Bytes) × (time_sync_to_bytes t ≡ ok bytes)
      × (length bytes ≡ 24)
      × (time_sync_from_bytes bytes ≡ ok t)
unfolding time_sync_to_bytes time_sync_from_bytes
time_sync-roundtrip t r =
    let t3 : List (ℕ × ℕ) = (8, t.reserved) ∷ [] in
    let t2 : List (ℕ × ℕ) = (4, t.t3_node_ms) ∷ t3 in
    let t1 : List (ℕ × ℕ) = (4, t.t2_node_ms) ∷ t2 in
    let fields : List (ℕ × ℕ) = (8, t.t1_host_us) ∷ t1 in
    let size : length (packed fields) ≡ 24 = length-packed fields in
    let r0 = read-to_le 8 t.t1_host_us (packed t1) r.t1_fits in
    let r1 = read-to_le 4 t.t2_node_ms (packed t2) r.t2_fits in
    let r2 = read-to_le 4 t.t3_node_ms (packed t3) r.t3_fits in
    let r3 = read-to_le 8 t.reserved [] r.reserved_fits in
    (
      packed fields,
      pack-fits fields (r.t1_fits, (r.t2_fits, (r.t3_fits, (r.reserved_fits, tt)))),
      size,
      rw size (rw r0 (rw r1 (rw r2 (rw r3 refl)))),
    )

-- A bulk chunk whose index is in range is packed, two bytes longer than its content, and unpacking
-- gives it back.
pub bulk_chunk-roundtrip :
    (c : BulkChunk)
    → c.index < 256 ^ 2
    → (bytes : Bytes) × (bulk_chunk_to_bytes c ≡ ok bytes)
      × (length bytes ≡ 2 + length c.content)
      × (bulk_chunk_from_bytes bytes ≡ ok c)
unfolding bulk_chunk_to_bytes bulk_chunk_from_bytes
bulk_chunk-roundtrip c h =
    let head : Bytes = to_le 2 c.index in
    let size : length (head ++ c.content) ≡ 2 + length c.content =
      omega (arith, length-append head c.content, length-to_le 2 c.index) in
    let long : ltb (length (head ++ c.content)) 2 ≡ false = ground (arith, size) in
    (
      head ++ c.content,
      rw (pack-fits ((2, c.index) ∷ []) (h, tt)) (rw (append-nil head) refl),
      size,
      rw long (rw (read-to_le 2 c.index c.content h) refl),
    )
