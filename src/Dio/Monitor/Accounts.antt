-- ===== src/Dio/Monitor/Accounts.antt =====
-- dio_link.py, `LinkMonitor`: the accounts of a monitor that is fed the bits of test frames.
use espstation.Common.{
  ℕ, suc, ◌+◌, ◌-◌, ◌*◌, ◌%◌, ◌≤◌, ◌<◌, ◌≡◌, refl, ap, ◌∙◌, sym, arith, List, [], ◌∷◌, Bytes,
  length, All, map,
}
use espstation.Common.{ok as done}
use espstation.Dio.Receiver.{ok, fresh}
use espstation.Dio.Receiver.Bits.{feed_bits-run_bits}
use espstation.Dio.Receiver.Reception.{IsPayload, received, send_frames, feed_bits-send_frames}
use espstation.Dio.TestFrames.{
  testframe_payload, payload_bit_errors_self, testframe_payload_shape, resync_index-ahead,
}
use espstation.Dio.Monitor.{
  LinkStats, FrameReport, LinkMonitor, first_byte, compare_payload, account_as, account, feed_bits,
}
use espstation.Dio.Monitor.Tracking.{account_all, feed_bits-account_all}

-- The report of test frame `seq`, which arrived intact where `expected` was due.
abbrev pub intact_report : ℕ → ℕ → FrameReport
intact_report expected seq = record {
  status = ok;
  length = length (testframe_payload seq);
  expected_seq = seq;
  missed = seq - expected;
  bit_errors = 0;
}

abbrev pub intact_reports : ℕ → List ℕ → List FrameReport
intact_reports expected [] = []
intact_reports expected (seq ∷ seqs) = intact_report expected seq ∷ intact_reports (seq + 1) seqs

-- The bits that are accounted: those of the length, the payload and the checksum.
abbrev pub wire_bits : List ℕ → ℕ
wire_bits [] = 0
wire_bits (seq ∷ seqs) = (2 + length (testframe_payload seq)) * 8 + wire_bits seqs

-- The index that is due after the frames.
abbrev pub next_expected : ℕ → List ℕ → ℕ
next_expected expected [] = expected
next_expected expected (seq ∷ seqs) = next_expected (seq + 1) seqs

-- Each frame is at most 255 ahead of the one that is due.
abbrev pub IsAhead : ℕ → List ℕ → Type 0
IsAhead expected [] = Unit
IsAhead expected (seq ∷ seqs) = (expected ≤ seq) × (seq < expected + 0x100) × IsAhead (seq + 1) seqs

first_byte-testframe_payload : (seq : ℕ) → first_byte (testframe_payload seq) ≡ done (seq % 0x100)
unfolding first_byte
first_byte-testframe_payload seq =
    let (_, _, _, (_, shape)) = testframe_payload_shape seq in ap first_byte shape

-- A test frame that arrives intact.
pub account-intact :
    (monitor : LinkMonitor) (seq : ℕ)
    → monitor.expected ≤ seq
    → seq < monitor.expected + 0x100
    → account monitor (received (testframe_payload seq))
      ≡ done (
        record monitor {
          expected = seq + 1;
          stats = record monitor.stats {
            frames_ok = monitor.stats.frames_ok + 1;
            bits_rx = monitor.stats.bits_rx + (2 + length (testframe_payload seq)) * 8;
          };
        },
        intact_report monitor.expected seq,
      )
unfolding account account_as compare_payload
account-intact monitor seq lo hi =
    let more : monitor.stats.bit_errors + 0 ≡ monitor.stats.bit_errors = omega arith in
    rw (first_byte-testframe_payload seq) (
      rw (resync_index-ahead monitor.expected seq lo hi)
        (rw (payload_bit_errors_self (testframe_payload seq)) (rw more refl)))

abbrev pub tracked : LinkMonitor → List ℕ → LinkMonitor
tracked monitor seqs = record monitor {
  expected = next_expected monitor.expected seqs;
  stats = record monitor.stats {
    frames_ok = monitor.stats.frames_ok + length seqs;
    bits_rx = monitor.stats.bits_rx + wire_bits seqs;
  };
}

abbrev pub numbers : List (ℕ × ℕ) → List ℕ
numbers [] = []
numbers ((_, seq) ∷ frames) = seq ∷ numbers frames

abbrev pub payloads : List (ℕ × ℕ) → List (ℕ × Bytes)
payloads [] = []
payloads ((idle, seq) ∷ frames) = (idle, testframe_payload seq) ∷ payloads frames

account_all-intact :
    (monitor : LinkMonitor) (frames : List (ℕ × ℕ))
    → IsAhead monitor.expected (numbers frames)
    → account_all monitor (map (λ f. received f.1) (payloads frames))
      ≡ done (tracked monitor (numbers frames), intact_reports monitor.expected (numbers frames))
unfolding account_all
account_all-intact monitor [] h =
    let same_ok : monitor.stats.frames_ok + 0 ≡ monitor.stats.frames_ok = omega arith in
    let same_bits : monitor.stats.bits_rx + 0 ≡ monitor.stats.bits_rx = omega arith in
    rw (same_ok, same_bits) refl
account_all-intact monitor ((idle, seq) ∷ frames) (lo, hi, h) =
    let ok_sum : monitor.stats.frames_ok + 1 + length (numbers frames)
        ≡ monitor.stats.frames_ok + suc (length (numbers frames)) =
      omega arith in
    let size : ℕ = (2 + length (testframe_payload seq)) * 8 in
    let bits_sum : monitor.stats.bits_rx + size + wire_bits (numbers frames)
        ≡ monitor.stats.bits_rx + (size + wire_bits (numbers frames)) =
      omega arith in
    rw (account-intact monitor seq lo hi) (
      rw
        (account_all-intact
          (record monitor {
            expected = seq + 1;
            stats = record monitor.stats {
              frames_ok = monitor.stats.frames_ok + 1;
              bits_rx = monitor.stats.bits_rx + size;
            };
          })
          frames h)
        (rw (ok_sum, bits_sum) refl))

payloads-IsPayload : (frames : List (ℕ × ℕ)) → All (λ f. IsPayload f.1) (payloads frames)
payloads-IsPayload [] = tt
payloads-IsPayload ((idle, seq) ∷ frames) =
    let (starts, fits, bytes, _) = testframe_payload_shape seq in
    (record { starts = starts; fits = fits; bytes = bytes }, payloads-IsPayload frames)

-- Test frames on the wire, each at most 255 ahead of the one that is due, with any number of idle
-- periods before each: a monitor whose receiver is fresh reports every one as intact, under its own
-- number, with the number of frames that were left out before it and no bit errors; it then expects
-- the frame after the last one, and its accounts have grown by the frames and their bits only.
pub feed_bits-testframes :
    (stats : LinkStats) (expected : ℕ) (frames : List (ℕ × ℕ))
    → IsAhead expected (numbers frames)
    → (wire : Bytes) × (send_frames (payloads frames) ≡ done wire)
      × (feed_bits (record { rx = fresh; stats = stats; expected = expected }) wire
          ≡ done (
            record {
              rx = fresh;
              stats = record stats {
                frames_ok = stats.frames_ok + length (numbers frames);
                bits_rx = stats.bits_rx + wire_bits (numbers frames);
              };
              expected = next_expected expected (numbers frames);
            },
            intact_reports expected (numbers frames),
          ))
feed_bits-testframes stats expected frames h =
    let (wire, sent, seen) = feed_bits-send_frames (payloads frames) (payloads-IsPayload frames) in
    let monitor : LinkMonitor = record { rx = fresh; stats = stats; expected = expected } in
    (
      wire,
      sent,
      feed_bits-account_all fresh wire monitor
          ∙ rw (sym (feed_bits-run_bits fresh wire) ∙ seen)
              (rw (account_all-intact monitor frames h) refl),
    )
