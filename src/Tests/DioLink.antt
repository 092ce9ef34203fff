-- ===== src/Tests/DioLink.antt =====
-- dio_link.py at concrete inputs.
use espstation.Common.{
  ℕ, ◌+◌, ◌-◌, min, ◌≡◌, inr, refl, arith, List, [], ◌∷◌, ◌++◌, Bytes, replicate, true, false, ok,
}
use espstation.Dio.Crc8.{crc8}
use espstation.Dio.Framing.{sync, build_frame, frame_to_bits}
use espstation.Dio.Receiver.{fresh, feed_bits, crc_err, len_err}
use espstation.Dio.Receiver.Reception.{IsPayload, received, send_frames, feed_bits-send_frames}
use espstation.Dio.Receiver.Damaged.{feed_bits_damaged, feed_bits_bad_length}
use espstation.Dio.Monitor.{LinkStats, LinkMonitor, FrameReport}
use espstation.Dio.Monitor
use espstation.Dio.Monitor.Accounts.{intact_reports, wire_bits, payloads, feed_bits-testframes}
use espstation.Dio.RateLimit.{RateLimit, allow_all, admitted, mask32_ms, allow_all-open}

abbrev hello : Bytes
hello = 104 ∷ 105 ∷ []

hello-IsPayload : IsPayload hello
hello-IsPayload = record { starts = omega arith; fits = omega arith; bytes = omega arith }

build_frame-hello : build_frame hello ≡ ok (0xaa ∷ 2 ∷ 104 ∷ 105 ∷ 147 ∷ [])
unfolding build_frame crc8
build_frame-hello = refl

feed_bits-send_frames_example :
    (wire : Bytes) × (send_frames ((3, hello) ∷ (0, hello) ∷ []) ≡ ok wire)
    × (feed_bits fresh wire ≡ (fresh, received hello ∷ received hello ∷ []))
feed_bits-send_frames_example =
    feed_bits-send_frames ((3, hello) ∷ (0, hello) ∷ []) (hello-IsPayload, (hello-IsPayload, tt))

feed_bits_damaged_example :
    (build_frame hello ≡ ok (sync ∷ 2 ∷ hello ++ crc8 (2 ∷ hello) ∷ []))
    × (feed_bits fresh (frame_to_bits (sync ∷ 2 ∷ (104 ∷ 106 ∷ []) ++ crc8 (2 ∷ hello) ∷ []))
        ≡ (fresh, record { status = crc_err; len = 2; payload = 104 ∷ 106 ∷ [] } ∷ []))
feed_bits_damaged_example =
    feed_bits_damaged (104 ∷ []) [] 105 106 hello-IsPayload (omega arith) (omega arith)

feed_bits_bad_length_example : feed_bits fresh (frame_to_bits (sync ∷ 33 ∷ []) ++ 1 ∷ 0 ∷ []) ≡ (
  (feed_bits fresh (1 ∷ 0 ∷ [])).0,
  record { status = len_err; len = 0; payload = [] } ∷ (feed_bits fresh (1 ∷ 0 ∷ [])).1,
)
feed_bits_bad_length_example =
    feed_bits_bad_length 33 (1 ∷ 0 ∷ []) (inr (omega arith)) (omega arith)

-- "123456789".
crc8-digits_text : crc8 (49 ∷ 50 ∷ 51 ∷ 52 ∷ 53 ∷ 54 ∷ 55 ∷ 56 ∷ 57 ∷ []) ≡ 0xf4
unfolding crc8
crc8-digits_text = refl

abbrev no_stats : LinkStats
no_stats = record {
  bits_rx = 0;
  frames_ok = 0;
  frames_crc_err = 0;
  frames_len_err = 0;
  bit_errors = 0;
}

abbrev two_frames : List (ℕ × ℕ)
two_frames = (16, 1) ∷ (0, 200) ∷ []

feed_bits-testframes_example :
    (wire : Bytes) × (send_frames (payloads two_frames) ≡ ok wire)
    × (Monitor.feed_bits (record { rx = fresh; stats = no_stats; expected = 0 }) wire
        ≡ ok (
          record {
            rx = fresh;
            stats = record no_stats { frames_ok = 0 + 2; bits_rx = 0 + wire_bits (1 ∷ 200 ∷ []) };
            expected = 201;
          },
          intact_reports 0 (1 ∷ 200 ∷ []),
        ))
feed_bits-testframes_example = feed_bits-testframes no_stats 0 two_frames (omega arith)

abbrev tx_data : ℕ
tx_data = 26

abbrev two_in_window : RateLimit
two_in_window = record {
  window_ms = 1000;
  max_in_window = 2;
  window_start_ms = 4294967000;
  count = 0;
  suppressed = 0;
  started = true;
}

allow_all-open_example : allow_all two_in_window (4294967000 ∷ 4294967200 ∷ 100 ∷ []) ≡ (
  record two_in_window {
    count = 0 + admitted two_in_window 3;
    suppressed = min (0 + (3 - admitted two_in_window 3)) mask32_ms;
  },
  replicate (admitted two_in_window 3) true ++ replicate (3 - admitted two_in_window 3) false,
)
allow_all-open_example =
    allow_all-open two_in_window (4294967000 ∷ 4294967200 ∷ 100 ∷ []) refl (omega arith)
      (omega arith) (omega arith)
