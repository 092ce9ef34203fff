-- ===== src/Tests/PackedMessages.antt =====
-- messages.py at concrete inputs.
use espstation.Common.{◌≡◌, arith, [], ◌∷◌, Bytes, length, ok}
use espstation.Protocol.Messages.Fields.{negsuc}
use espstation.Protocol.Messages.{
  Heartbeat, heartbeat_to_bytes, heartbeat_from_bytes, TelemAck, BulkChunk, TimeSync,
}
use espstation.Protocol.Messages.Logs.{Log}
use espstation.Protocol.Messages.RoundTrips.{heartbeat-roundtrip}

-- Text that is its own coding.
abbrev own_coding : Bytes → Bytes
own_coding text = text

abbrev one_log : Log Bytes own_coding own_coding
one_log = record { ts_ms = 70000; level = 3; tag = 119 ∷ 105 ∷ []; msg = 111 ∷ 107 ∷ [] }

-- An rssi of -61.
abbrev one_heartbeat : Heartbeat
one_heartbeat = record {
  uptime_ms = 1840;
  heap_free = 200000;
  heap_min = 150000;
  state = 2;
  flags = 5;
  rssi = negsuc 60;
  reserved = 0;
}

heartbeat-roundtrip_example :
    (bytes : Bytes) × (heartbeat_to_bytes one_heartbeat ≡ ok bytes)
    × (length bytes ≡ 16)
    × (heartbeat_from_bytes bytes ≡ ok one_heartbeat)
heartbeat-roundtrip_example = heartbeat-roundtrip one_heartbeat (record {
  uptime_fits = omega arith;
  heap_free_fits = omega arith;
  heap_min_fits = omega arith;
  state_fits = omega arith;
  flags_fits = omega arith;
  rssi_fits = omega arith;
  reserved_fits = omega arith;
})

abbrev one_ack : TelemAck
one_ack = record { node = 4711; last_seq = 65535; flags = 0 }

abbrev one_sync : TimeSync
one_sync = record { t1_host_us = 1700000000000000; t2_node_ms = 5; t3_node_ms = 6; reserved = 0 }

abbrev one_chunk : BulkChunk
one_chunk = record { index = 513; content = 7 ∷ 8 ∷ 9 ∷ [] }
