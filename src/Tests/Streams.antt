-- ===== src/Tests/Streams.antt =====
-- frames.py `StreamingDecoder`, tcp.py and base.py at concrete inputs.
use espstation.Common.{
  ℕ, ◌<◌, ◌≡◌, ◌≢◌, refl, arith, List, [], ◌∷◌, ◌++◌, map, Bytes, replicate, All-append,
  All-replicate, IsByte, true, false, ok,
}
use espstation.Protocol.Cobs.Delivered.{lost_zeros, lost_zeros-full}
use espstation.Protocol.Cobs
use espstation.Protocol.Crc16.{crc16_ccitt_false}
use espstation.Protocol.Frames.{Frame, encode, encode_cobs, frame_encode_cobs}
use espstation.Protocol.Frames.Built.{IsSendable, body_of}
use espstation.Protocol.Streaming.{Event, frame, raw, feed, feed_all}
use espstation.Protocol.Streaming
use espstation.Protocol.Streaming.Chunks.{flatten}
use espstation.Protocol.Streaming.Delivery.{send_all, IsShort, feed_all-send_all, feed_lossy}
use espstation.Transports.LengthPrefix
use espstation.Transports.LengthPrefix.Delivery.{feed_all-send_prefixed}
use espstation.Transports.LengthPrefix.Delivery
use espstation.Transports.Link.{Link, Hearing, hears, decoded, finished, serial_decoder, pump, stop}
use espstation.Transports.Link.Sessions.{ending_events, pump_serial}

abbrev small_frame : Frame
small_frame = record { type = 2; node = 1; seq = 3; payload = 1 ∷ 0 ∷ 2 ∷ []; ver = 1 }

small_frame-IsSendable : IsSendable small_frame
small_frame-IsSendable = record {
  type_fits = omega arith;
  node_fits = omega arith;
  seq_fits = omega arith;
  payload_fits = omega arith;
  payload_bytes = omega arith;
  current = refl;
}

small_frame-IsShort : IsShort small_frame
small_frame-IsShort = record { sendable = small_frame-IsSendable; short = omega arith }

abbrev small_block : Bytes
small_block = 4 ∷ 1 ∷ 2 ∷ 1 ∷ 2 ∷ 3 ∷ 2 ∷ 3 ∷ 2 ∷ 1 ∷ 4 ∷ 2 ∷ 205 ∷ 24 ∷ 0 ∷ []

small_frame-sent : send_all (small_frame ∷ []) ≡ ok small_block
unfolding send_all frame_encode_cobs encode_cobs encode Cobs.encode crc16_ccitt_false
small_frame-sent = refl

abbrev small_chunks : List Bytes
small_chunks =
    (9 ∷ 9 ∷ 0 ∷ 4 ∷ 1 ∷ []) ∷ (2 ∷ 1 ∷ 2 ∷ 3 ∷ 2 ∷ 3 ∷ 2 ∷ 1 ∷ 4 ∷ 2 ∷ 205 ∷ 24 ∷ 0 ∷ []) ∷ []

feed_all-send_all_example :
    (before : List Event) × (feed [] (9 ∷ 9 ∷ 0 ∷ []) ≡ ok (before, []))
    × (feed_all [] small_chunks ≡ ok (before ++ frame small_frame ∷ [], []))
feed_all-send_all_example =
    feed_all-send_all (small_frame ∷ []) (9 ∷ 9 ∷ []) small_block small_chunks
      (small_frame-IsShort, tt) small_frame-sent refl

-- The header's bytes are not zero, so the first COBS block ends behind 246 bytes of the payload.
abbrev lossy_frame : Frame
lossy_frame = record {
  type = 2;
  node = 0x101;
  seq = 0x101;
  payload = replicate 246 1 ++ 0 ∷ replicate 10 1;
  ver = 1;
}

lossy_frame-IsSendable : IsSendable lossy_frame
lossy_frame-IsSendable = record {
  type_fits = omega arith;
  node_fits = omega arith;
  seq_fits = omega arith;
  payload_fits = omega arith;
  payload_bytes =
      All-append IsByte (replicate 246 1) (0 ∷ replicate 10 1)
        (All-replicate IsByte 246 1 (omega arith))
        (omega arith, All-replicate IsByte 10 1 (omega arith));
  current = refl;
}

lossy_frame-lost_zeros : 0 < lost_zeros 0 (body_of lossy_frame)
lossy_frame-lost_zeros =
    lost_zeros-full 0 (1 ∷ 2 ∷ 1 ∷ 1 ∷ 1 ∷ 1 ∷ 1 ∷ 1 ∷ replicate 246 1) _
      (All-append (λ b. b ≢ 0) (1 ∷ 2 ∷ 1 ∷ 1 ∷ 1 ∷ 1 ∷ 1 ∷ 1 ∷ []) (replicate 246 1) (omega arith)
        (All-replicate (λ b. b ≢ 0) 246 1 (omega arith)))
      refl

feed_lossy_example :
    (enc : Bytes) × (frame_encode_cobs lossy_frame ≡ ok (enc ++ 0 ∷ []))
    × (feed [] (enc ++ 0 ∷ []) ≡ ok (raw enc ∷ [], []))
feed_lossy_example = feed_lossy lossy_frame lossy_frame-IsSendable lossy_frame-lost_zeros

feed_all-send_prefixed_example :
    (wire : Bytes) × (Delivery.send_all (small_frame ∷ []) ≡ ok wire)
    × ((chunks : List Bytes)
        → flatten chunks ≡ wire
        → LengthPrefix.feed_all [] chunks ≡ ok (frame small_frame ∷ [], []))
feed_all-send_prefixed_example =
    feed_all-send_prefixed (small_frame ∷ []) (small_frame-IsSendable, tt)

abbrev all_hear : ℕ → Hearing
all_hear n = hears

pump_serial_example :
    (events : List Event) × (rest : Bytes) × (link' : Link serial_decoder) × (Streaming.feed []
        (flatten small_chunks)
      ≡ ok (events, rest))
    × (pump serial_decoder all_hear 0
          (record { decoder = []; connected = true; seq = 7 })
          small_chunks
          finished
        ≡ ok (map decoded events ++ ending_events finished, link'))
    × (stop serial_decoder link' ≡ (
      map decoded (Streaming.flush rest).0,
      record { decoder = []; connected = false; seq = 7 },
    ))
pump_serial_example = pump_serial all_hear 0 true 7 small_chunks finished (λ k. refl)
