-- ===== src/Sim/Digital/Step.antt =====
-- transports/sim/node.py, `SimNode.dio_step`: one step of the digital link.
use espstation.Common.{
  ℕ, zero, suc, ◌+◌, ◌-◌, List, [], ◌∷◌, ◌++◌, Option, none, some, ◌||◌, ◌==◌, leb, if◌then◌else◌,
  Bytes, Result, err, stuck, ◌>>=◌, replicate,
}
use espstation.Common.{ok as done}
use espstation.Dio.Framing.{LengthError, build_frame, frame_to_bits}
use espstation.Dio.TestFrames.{testframe_payload}
use espstation.Dio.Monitor.{LinkMonitor, FrameReport, IndexError}
use espstation.Dio.Monitor
use espstation.Sim.Wire.{VirtualWire, Draw, Noise}
use espstation.Sim.Wire
use espstation.Sim.Digital.{
  DioRuntime, Pins, Output, edge, edge_key, dio_event_limited, frame_reports, dio_handshake,
  write_tx, tx_level,
}

-- What a step may raise: a frame that is too long to build, or an index into an empty payload.
pub data StepError : Type 0 where
  bad_length : LengthError → StepError
  bad_index : IndexError → StepError

-- What a step draws.
pub record StepDraws : Type 0 where
  pub blink : Draw
  pub noise : Noise
  pub frame : ℕ → Draw
  pub flips : ℕ → ℕ → ℕ
  pub leg_out : Draw
  pub leg_back : Draw

pub blink : Pins → DioRuntime → ℕ → ℕ → Draw → Pins
blink pins dio dt now_us draw =
    let accum = dio.blink_accum + dt in
    let half = dio.config.blink_half_us in
    if half == 0 || dio.config.manual
    then pins
    else if leb half accum
    then write_tx (record pins { dio = some (record dio { blink_accum = accum - half }) })
        (1 - tx_level pins) now_us draw
    else record pins { dio = some (record dio { blink_accum = accum }) }

-- The loop over the edges of a poll.
pub count_edges : List (ℕ × ℕ) → DioRuntime → DioRuntime
count_edges [] dio = dio
count_edges ((t_us, level) ∷ edges) dio =
    count_edges edges (record dio { rx_level = level; edges_rx = dio.edges_rx + 1 })

pub report_edges : DioRuntime → ℕ → DioRuntime × List Output
report_edges dio now_us =
    if dio.edges_rx == dio.edges_reported
    then (dio, [])
    else dio_event_limited (record dio { edges_reported = dio.edges_rx }) edge_key now_us
        (edge dio.rx_level dio.edges_rx)

-- The lift of an error of the monitor.
abbrev pub lift_index {ℓ} : {A : Type ℓ} → Result IndexError A → Result StepError A
lift_index (done a) = done a
lift_index (err e) = err (bad_index e)
lift_index stuck = stuck

abbrev pub lift_length {ℓ} : {A : Type ℓ} → Result LengthError A → Result StepError A
lift_length (done a) = done a
lift_length (err e) = err (bad_length e)
lift_length stuck = stuck

abbrev pub idle_gap : Bytes
idle_gap = replicate 16 0

-- The loop over the frames that a wire hands out.
unfoldable pub receive_frames :
    List Bytes → DioRuntime → ℕ → Result StepError (DioRuntime × List Output)
receive_frames [] dio now_us = done (dio, [])
receive_frames (bits ∷ frames) dio now_us = do
  (monitor, reports) ← lift_index (Monitor.feed_bits dio.monitor (bits ++ idle_gap))
  let reported = frame_reports (record dio { monitor = monitor }) reports now_us
  (dio, later) ← receive_frames frames reported.0 now_us
  done (dio, reported.1 ++ later)

-- (a) and (c) of the step, on the wire that comes in.
listen : Option VirtualWire → DioRuntime → ℕ → Noise → Result StepError (DioRuntime × List Output)
listen none dio now_us noise = done (dio, [])
listen (some wire) dio now_us noise =
    let (wire, edges) = Wire.poll wire now_us noise in
    let (dio, out) = report_edges (count_edges edges dio) now_us in
    let (wire, frames) = Wire.pop_frames wire now_us in
    do
      (dio, later) ← receive_frames frames (record dio { in_wire = some wire }) now_us
      done (dio, out ++ later)

-- The loop of a burst: test frames from number `seq` on.
unfoldable pub send_frames :
    ℕ → ℕ → VirtualWire → ℕ → (ℕ → Draw) → (ℕ → ℕ → ℕ) → Result StepError VirtualWire
send_frames zero seq wire now_us draws flips = done wire
send_frames (suc n) seq wire now_us draws flips = do
  frame ← lift_length (build_frame (testframe_payload seq))
  let wire = Wire.carry_frame wire (frame_to_bits frame) now_us (draws 0) (flips 0)
  send_frames n (seq + 1) wire now_us (λ k. draws (suc k)) (λ k. flips (suc k))

send_burst : DioRuntime → VirtualWire → ℕ → StepDraws → Result StepError DioRuntime
send_burst dio wire now_us draws = do
  let n = dio.config.frames_per_burst
  wire ← send_frames n dio.tx_seq wire now_us draws.frame draws.flips
  done (record dio {
    out_wire = some wire;
    tx_seq = dio.tx_seq + n;
    frames_sent = dio.frames_sent + n;
  })

-- The test frames of the step, on the wire that goes out.
burst : Option VirtualWire → DioRuntime → ℕ → ℕ → StepDraws → Result StepError DioRuntime
burst none dio dt now_us draws = done dio
burst (some wire) dio dt now_us draws =
    let accum = dio.burst_accum + dt in
    let period = dio.config.burst_period_us in
    if dio.config.manual || period == 0 || dio.config.frames_per_burst == 0
    then done dio
    else if leb period accum
    then send_burst (record dio { burst_accum = accum - period }) wire now_us draws
    else done (record dio { burst_accum = accum })

handshake : DioRuntime → ℕ → StepDraws → DioRuntime × List Output
handshake dio dt draws =
    let accum = dio.hs_accum + dt in
    let period = dio.config.handshake_period_us in
    if period == 0 || dio.config.manual
    then (dio, [])
    else if leb period accum
    then dio_handshake (record dio { hs_accum = accum - period }) draws.leg_out draws.leg_back
    else (record dio { hs_accum = accum }, [])

-- The rest of the step after the blink.
after_blink : Option DioRuntime → Pins → ℕ → ℕ → StepDraws → Result StepError (Pins × List Output)
after_blink none pins dt now_us draws = done (pins, [])
after_blink (some dio) pins dt now_us draws = do
  (dio, heard) ← listen dio.in_wire dio now_us draws.noise
  dio ← burst dio.out_wire dio dt now_us draws
  let shaken = handshake dio dt draws
  done (record pins { dio = some shaken.0 }, heard ++ shaken.1)

blink_first : Option DioRuntime → Pins → ℕ → ℕ → StepDraws → Pins
blink_first none pins dt now_us draws = pins
blink_first (some dio) pins dt now_us draws = blink pins dio dt now_us draws.blink

unfoldable pub dio_step : Pins → ℕ → ℕ → StepDraws → Result StepError (Pins × List Output)
unfolding blink_first blink after_blink listen count_edges report_edges burst send_burst handshake
dio_step pins dt now_us draws =
    let pins = blink_first pins.dio pins dt now_us draws in
    after_blink pins.dio pins dt now_us draws
