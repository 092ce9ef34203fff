-- ===== src/Sim/Digital/Listening.antt =====
-- transports/sim/node.py, `SimNode.dio_step`: a node that takes test frames off its wire.
use espstation.Common.{
  ℕ, suc, ◌+◌, ◌*◌, ◌≤◌, ◌<◌, ◌≡◌, refl, ap, sym, ◌∙◌, arith, List, [], ◌∷◌, ◌++◌, Bytes,
  Bool-cases, inl, inr, length, replicate, ==_self, ◌==◌, subst,
}
use espstation.Common.{ok as done}
use espstation.Dio.Crc8.{crc8}
use espstation.Dio.Framing.{sync, frame_to_bits}
use espstation.Dio.Receiver.{FrameRx, fresh, ok, crc_err, len_err, RxStatus}
use espstation.Dio.Receiver.Bits.{run_bits}
use espstation.Dio.Receiver.Reception.{
  IsPayload, received, run_bits-frame, run_bits-idle, checksum-IsByte,
}
use espstation.Dio.TestFrames.{testframe_payload, testframe_payload_shape}
use espstation.Dio.Monitor.{LinkMonitor, LinkStats, FrameReport, feed_bits}
use espstation.Dio.Monitor.Tracking.{account_all, feed_bits-account_all}
use espstation.Dio.Monitor.Accounts.{
  account-intact, intact_report, tracked, wire_bits, IsAhead, next_expected,
}
use espstation.Sim.Digital.{
  DioRuntime, LimitKey, Event, Output, dio_event_limited, dio_frame_report, frame_reports,
  report_as, report_ok,
}
use espstation.Sim.Digital.Step.{receive_frames, idle_gap}

-- The bits of test frame `seq`.
unfoldable pub test_bits : ℕ → Bytes
test_bits seq =
    let payload : Bytes = testframe_payload seq in
    frame_to_bits (sync ∷ length payload ∷ payload ++ crc8 (length payload ∷ payload) ∷ [])

pub testframe-IsPayload : (seq : ℕ) → IsPayload (testframe_payload seq)
testframe-IsPayload seq =
    let (starts, fits, bytes, _) = testframe_payload_shape seq in
    record { starts = starts; fits = fits; bytes = bytes }

run_bits-test_bits :
    (seq : ℕ)
    → run_bits fresh (test_bits seq ++ idle_gap) ≡ (fresh, received (testframe_payload seq) ∷ [])
unfolding test_bits
run_bits-test_bits seq =
    let payload : Bytes = testframe_payload seq in
    let c : ℕ = crc8 (length payload ∷ payload) in
    run_bits-frame payload c (replicate 16 0) (testframe-IsPayload seq)
      (checksum-IsByte payload (testframe-IsPayload seq))
    ∙ rw (==_self c) (rw (run_bits-idle 16 []) (unfold run_bits in refl))

-- One test frame and the gap behind it.
feed_bits-test_bits :
    (stats : LinkStats) (expected seq : ℕ)
    → expected ≤ seq
    → seq < expected + 0x100
    → feed_bits
        (record { rx = fresh; stats = stats; expected = expected })
        (test_bits seq ++ idle_gap)
      ≡ done (
        tracked (record { rx = fresh; stats = stats; expected = expected }) (seq ∷ []),
        intact_report expected seq ∷ [],
      )
unfolding account_all
feed_bits-test_bits stats expected seq lo hi =
    let monitor : LinkMonitor = record { rx = fresh; stats = stats; expected = expected } in
    feed_bits-account_all fresh (test_bits seq ++ idle_gap) monitor
    ∙ rw (run_bits-test_bits seq) (
        rw (account-intact monitor seq lo hi) (
          let one : (2 + length (testframe_payload seq)) * 8 + 0
              ≡ (2 + length (testframe_payload seq)) * 8 =
            omega arith in
          rw one refl))

dio_event_limited-monitor :
    (dio : DioRuntime) (key : LimitKey) (now_us : ℕ) (e : Event)
    → (dio_event_limited dio key now_us e).0.monitor ≡ dio.monitor
unfolding dio_event_limited
dio_event_limited-monitor dio key now_us e = ground arith

report_as-monitor :
    (status : RxStatus) (dio : DioRuntime) (r : FrameReport) (now_us : ℕ)
    → (report_as status dio r now_us).0.monitor ≡ dio.monitor
unfolding report_as report_ok
report_as-monitor crc_err dio r now_us = dio_event_limited-monitor dio _ now_us _
report_as-monitor len_err dio r now_us = dio_event_limited-monitor dio _ now_us _
report_as-monitor ok dio r now_us = elim (Bool-cases (r.missed == 0)) [
  | inl e ↦ rw e (dio_event_limited-monitor dio _ now_us _)
  | inr e ↦ rw e (dio_event_limited-monitor _ _ now_us _ ∙ dio_event_limited-monitor dio _ now_us _)
]

-- The reports change nothing of the monitor.
frame_reports-monitor :
    (dio : DioRuntime) (reports : List FrameReport) (now_us : ℕ)
    → (frame_reports dio reports now_us).0.monitor ≡ dio.monitor
unfolding frame_reports dio_frame_report
frame_reports-monitor dio [] now_us = refl
frame_reports-monitor dio (r ∷ reports) now_us =
    frame_reports-monitor (report_as r.status dio r now_us).0 reports now_us
    ∙ report_as-monitor r.status dio r now_us

abbrev pub bits_of_frames : List ℕ → List Bytes
bits_of_frames [] = []
bits_of_frames (seq ∷ seqs) = test_bits seq ∷ bits_of_frames seqs

tracked-none : (monitor : LinkMonitor) → monitor ≡ tracked monitor []
tracked-none monitor =
    let same_ok : monitor.stats.frames_ok + 0 ≡ monitor.stats.frames_ok = omega arith in
    let same_bits : monitor.stats.bits_rx + 0 ≡ monitor.stats.bits_rx = omega arith in
    λ i. record monitor {
      stats = record monitor.stats { frames_ok = sym same_ok i; bits_rx = sym same_bits i };
    }

tracked-cons :
    (monitor : LinkMonitor) (seq : ℕ) (seqs : List ℕ)
    → tracked (tracked monitor (seq ∷ [])) seqs ≡ tracked monitor (seq ∷ seqs)
tracked-cons monitor seq seqs =
    let size : ℕ = (2 + length (testframe_payload seq)) * 8 in
    let oks : monitor.stats.frames_ok + 1 + length seqs
        ≡ monitor.stats.frames_ok + suc (length seqs) =
      omega arith in
    let bits : monitor.stats.bits_rx + (size + 0) + wire_bits seqs
        ≡ monitor.stats.bits_rx + (size + wire_bits seqs) =
      omega arith in
    λ i. record monitor {
      expected = next_expected (seq + 1) seqs;
      stats = record monitor.stats { frames_ok = oks i; bits_rx = bits i };
    }

fed_once :
    (monitor : LinkMonitor) (seq : ℕ)
    → monitor.rx ≡ fresh
    → monitor.expected ≤ seq
    → seq < monitor.expected + 0x100
    → feed_bits monitor (test_bits seq ++ idle_gap)
      ≡ done (tracked monitor (seq ∷ []), intact_report monitor.expected seq ∷ [])
fed_once monitor seq clean lo hi =
    subst
      (λ (rx : FrameRx).
        feed_bits (record monitor { rx = rx }) (test_bits seq ++ idle_gap)
        ≡ done (
          tracked (record monitor { rx = rx }) (seq ∷ []),
          intact_report monitor.expected seq ∷ [],
        ))
      (sym clean) (feed_bits-test_bits monitor.stats monitor.expected seq lo hi)

-- What a receiver that is between frames makes of test frames that arrive intact and in order, some
-- perhaps left out (fewer than 256 in a row): the step's loop raises nothing, and its monitor counts
-- each of them as good, with its bits, counts no bad frame and no bit error, and expects the number
-- after the last one.
pub receive_frames-testframes :
    (seqs : List ℕ) (dio : DioRuntime) (now_us : ℕ)
    → dio.monitor.rx ≡ fresh
    → IsAhead dio.monitor.expected seqs
    → (dio' : DioRuntime) × (out : List Output) × (receive_frames (bits_of_frames seqs) dio now_us
        ≡ done (dio', out))
      × (dio'.monitor ≡ tracked dio.monitor seqs)
unfolding receive_frames
receive_frames-testframes [] dio now_us clean h = (dio, [], refl, tracked-none dio.monitor)
receive_frames-testframes (seq ∷ seqs) dio now_us clean (lo, hi, h) =
    let monitor : LinkMonitor = tracked dio.monitor (seq ∷ []) in
    let reports : List FrameReport = intact_report dio.monitor.expected seq ∷ [] in
    let reported : DioRuntime × List Output =
      frame_reports (record dio { monitor = monitor }) reports now_us in
    let kept : reported.0.monitor ≡ monitor =
      frame_reports-monitor (record dio { monitor = monitor }) reports now_us in
    let fed : feed_bits dio.monitor (test_bits seq ++ idle_gap) ≡ done (monitor, reports) =
      fed_once dio.monitor seq clean lo hi in
    let (dio', out, received_, tracked_) =
      receive_frames-testframes seqs reported.0 now_us (ap (λ (m : LinkMonitor). m.rx) kept ∙ clean)
        (rw kept h) in
    (
      dio',
      reported.1 ++ out,
      rw fed (rw received_ refl),
      tracked_ ∙ ap (λ (m : LinkMonitor). tracked m seqs) kept ∙ tracked-cons dio.monitor seq seqs,
    )
