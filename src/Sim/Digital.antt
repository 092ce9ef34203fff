-- ===== src/Sim/Digital.antt =====
-- transports/sim/node.py, the digital link of a `SimNode`: its outputs, its two wires, and one step
-- of the emulation. Times are whole microseconds; a frequency of the configuration is given by its
-- period (a blink by half of one), 0 where it is off. A node's two wires are different objects.
pub mod Step
pub mod Handshakes
pub mod Limits
pub mod Listening
pub mod Bursts
pub mod Outputs
use espstation.Common.{
  ℕ, zero, suc, ◌+◌, ◌-◌, ◌*◌, ◌/◌, ◌≡◌, refl, arith, ◌↔◌, List, [], ◌∷◌, ◌++◌, Option, none, some,
  Bool, true, false, not, ◌&&◌, ◌||◌, ◌==◌, ltb, leb, if◌then◌else◌, Bytes, Result, err, ◌>>=◌,
  replicate,
}
use espstation.Common.{ok as done}
use espstation.Common.Dict.{Dict, Key, get, put, number_key}
use espstation.Dio.Pins.{Rejection, output_rejection_reason}
use espstation.Dio.Framing.{LengthError, build_frame, frame_to_bits}
use espstation.Dio.Receiver.{fresh, RxStatus, ok, crc_err, len_err}
use espstation.Dio.TestFrames.{testframe_payload}
use espstation.Dio.Monitor.{LinkMonitor, LinkStats, FrameReport, IndexError, frames_err}
use espstation.Dio.Monitor
use espstation.Dio.RateLimit.{RateLimit, allow, take_suppressed}
use espstation.Sim.Wire.{VirtualWire, Draw, Noise}
use espstation.Sim.Wire

-- The keys of `_DIO_EVENT_LIMITS`.
pub data LimitKey : Type 0 where
  edge_key lost_frames_key frame_ok_key crc_err_key : LimitKey

same_limit : LimitKey → LimitKey → Bool
same_limit edge_key edge_key = true
same_limit lost_frames_key lost_frames_key = true
same_limit frame_ok_key frame_ok_key = true
same_limit crc_err_key crc_err_key = true
same_limit _ _ = false

same_limit_iff : (a b : LimitKey) → (same_limit a b ≡ true) ↔ (a ≡ b)
unfolding same_limit
same_limit_iff edge_key b = ground arith
same_limit_iff lost_frames_key b = ground arith
same_limit_iff frame_ok_key b = ground arith
same_limit_iff crc_err_key b = ground arith

instance unfoldable pub limit_key : Key LimitKey
unfolding same_limit same_limit_iff
limit_key = record { same = same_limit; same_iff = same_limit_iff }

-- The window, in milliseconds, and the number of events in it.
unfoldable pub dio_event_limits : LimitKey → ℕ × ℕ
dio_event_limits edge_key = (1000, 5)
dio_event_limits frame_ok_key = (5000, 1)
dio_event_limits crc_err_key = (5000, 2)
dio_event_limits lost_frames_key = (5000, 1)

pub record DioConfig : Type 0 where
  pub manual : Bool
  pub blink_half_us : ℕ
  pub handshake_period_us : ℕ
  pub frames_per_burst : ℕ
  pub burst_period_us : ℕ
  pub lost_after_timeouts : ℕ
  pub event_limits : LimitKey → ℕ × ℕ

pub data LinkState : Type 0 where
  init up lost : LinkState

pub record DioRuntime : Type 0 where
  pub config : DioConfig
  pub out_wire : Option VirtualWire
  pub in_wire : Option VirtualWire
  pub monitor : LinkMonitor
  pub rx_level : ℕ
  pub edges_rx : ℕ
  pub tx_seq : ℕ
  pub frames_sent : ℕ
  pub blink_accum : ℕ
  pub hs_accum : ℕ
  pub burst_accum : ℕ
  pub link_state : LinkState
  pub consec_timeouts : ℕ
  pub handshakes_ok : ℕ
  pub handshakes_timeout : ℕ
  pub last_rtt_us : Option ℕ
  pub limiters : Dict LimitKey RateLimit
  pub edges_reported : ℕ

-- Why an output is refused.
pub data Refusal : Type 0 where
  not_drivable : Rejection → Refusal
  bad_level : Refusal

-- The events of the link with their data. A pin or level that is no number (-1) is `none`.
pub data Event : Type 0 where
  gpio_rejected : Option ℕ → Option ℕ → Refusal → Event
  gpio : ℕ → ℕ → Event
  edge : ℕ → ℕ → Event
  frames_lost : ℕ → ℕ → Event
  frame_ok : ℕ → ℕ → Event
  frame_err : ℕ → ℕ → RxStatus → Event
  link_lost : ℕ → ℕ → Event
  link_up : ℕ → ℕ → Event

-- What a step emits: an event with its `suppressed`, 0 where the data has no such key, or a sample
-- of `link.rtt_us`.
pub data Output : Type 0 where
  event : Event → ℕ → Output
  rtt_sample : ℕ → Output

-- The pins of a node, and its link if it has one.
pub record Pins : Type 0 where
  pub gpio_out : Dict ℕ ℕ
  pub dio : Option DioRuntime

abbrev pub pin_tx_data : ℕ
pin_tx_data = 26

abbrev pub fresh_monitor : LinkMonitor
fresh_monitor = record {
  rx = fresh;
  stats = record {
    bits_rx = 0;
    frames_ok = 0;
    frames_crc_err = 0;
    frames_len_err = 0;
    bit_errors = 0;
  };
  expected = 0;
}

abbrev pub new_runtime : DioConfig → DioRuntime
new_runtime config = record {
  config = config;
  out_wire = none;
  in_wire = none;
  monitor = fresh_monitor;
  rx_level = 0;
  edges_rx = 0;
  tx_seq = 0;
  frames_sent = 0;
  blink_accum = 0;
  hs_accum = 0;
  burst_accum = 0;
  link_state = init;
  consec_timeouts = 0;
  handshakes_ok = 0;
  handshakes_timeout = 0;
  last_rtt_us = none;
  limiters = [];
  edges_reported = 0;
}

-- `send_level` on the outgoing wire, if there is one.
pub drive_out : DioRuntime → ℕ → ℕ → Draw → DioRuntime
drive_out dio level now_us draw = elim (dio.out_wire) [
  | none ↦ dio
  | some wire ↦ record dio { out_wire = some (Wire.send_level wire level now_us draw) }
]

pub drive_dio : Option DioRuntime → ℕ → ℕ → Draw → Option DioRuntime
drive_dio none level now_us draw = none
drive_dio (some dio) level now_us draw = some (drive_out dio level now_us draw)

pub write_tx : Pins → ℕ → ℕ → Draw → Pins
write_tx pins level now_us draw = record pins {
  gpio_out = put pin_tx_data level pins.gpio_out;
  dio = drive_dio pins.dio level now_us draw;
}

is_manual : Option DioRuntime → Bool
is_manual none = false
is_manual (some dio) = dio.config.manual

pin_refusal : Option ℕ → Bool → Option Rejection
pin_refusal none manual = some Rejection.pin_not_allowed
pin_refusal (some pin) manual = output_rejection_reason pin manual

is_level : Option ℕ → Bool
is_level none = false
is_level (some level) = level == 0 || level == 1

level_refusal : Option Rejection → Option ℕ → Option Refusal
level_refusal (some reason) level = some (not_drivable reason)
level_refusal none level = if is_level level then none else some bad_level

-- Why `set_gpio` refuses, if it does.
pub refusal : Pins → Option ℕ → Option ℕ → Option Refusal
refusal pins pin level = level_refusal (pin_refusal pin (is_manual pins.dio)) level

drive_pin : Pins → ℕ → ℕ → ℕ → Draw → Pins
drive_pin pins pin level now_us draw =
    if pin == pin_tx_data
    then write_tx pins level now_us draw
    else record pins { gpio_out = put pin level pins.gpio_out }

-- The end of `set_gpio`, after the reason is known. A pin or a level that is missing has a reason.
apply_gpio : Option Refusal → Pins → Option ℕ → Option ℕ → ℕ → Draw → Pins × Event × Bool
apply_gpio (some reason) pins pin level now_us draw = (pins, gpio_rejected pin level reason, false)
apply_gpio none pins (some pin) (some level) now_us draw =
    (drive_pin pins pin level now_us draw, gpio pin level, true)
apply_gpio none pins none level now_us draw = (pins, gpio_rejected none level bad_level, false)
apply_gpio none pins (some pin) none now_us draw =
    (pins, gpio_rejected (some pin) none bad_level, false)

unfoldable pub set_gpio : Pins → Option ℕ → Option ℕ → ℕ → Draw → Pins × Event × Bool
unfolding refusal apply_gpio drive_pin pin_refusal is_manual is_level level_refusal write_tx
    drive_dio drive_out
set_gpio pins pin level now_us draw = apply_gpio (refusal pins pin level) pins pin level now_us draw

limiter_or : Option RateLimit → DioRuntime → LimitKey → RateLimit
limiter_or (some limiter) dio key = limiter
limiter_or none dio key = record {
  window_ms = (dio.config.event_limits key).0;
  max_in_window = (dio.config.event_limits key).1;
  window_start_ms = 0;
  count = 0;
  suppressed = 0;
  started = false;
}

limiter_of : DioRuntime → LimitKey → RateLimit
limiter_of dio key = limiter_or (get key dio.limiters) dio key

-- Emit an event unless its limiter refuses it; a limiter is made when it is first used.
unfoldable pub dio_event_limited : DioRuntime → LimitKey → ℕ → Event → DioRuntime × List Output
unfolding limiter_of limiter_or
dio_event_limited dio key now_us e =
    let (limiter, admitted) = allow (limiter_of dio key) (now_us / 1000) in
    let (open_, suppressed) = take_suppressed limiter in
    if admitted
    then (record dio { limiters = put key open_ dio.limiters }, event e suppressed ∷ [])
    else (record dio { limiters = put key limiter dio.limiters }, [])

report_ok : DioRuntime → FrameReport → ℕ → DioRuntime × List Output
report_ok dio r now_us =
    let (dio, gaps) : DioRuntime × List Output =
      if r.missed == 0
      then (dio, [])
      else dio_event_limited dio lost_frames_key now_us (frames_lost r.missed r.expected_seq) in
    let (dio, good) =
      dio_event_limited dio frame_ok_key now_us (frame_ok dio.monitor.stats.frames_ok r.length) in
    (dio, gaps ++ good)

report_as : RxStatus → DioRuntime → FrameReport → ℕ → DioRuntime × List Output
report_as ok dio r now_us = report_ok dio r now_us
report_as crc_err dio r now_us =
    dio_event_limited dio crc_err_key now_us
      (frame_err (frames_err dio.monitor.stats) r.length crc_err)
report_as len_err dio r now_us =
    dio_event_limited dio crc_err_key now_us
      (frame_err (frames_err dio.monitor.stats) r.length len_err)

unfoldable pub dio_frame_report : DioRuntime → FrameReport → ℕ → DioRuntime × List Output
unfolding report_as report_ok
dio_frame_report dio r now_us = report_as r.status dio r now_us

pub frame_reports : DioRuntime → List FrameReport → ℕ → DioRuntime × List Output
frame_reports dio [] now_us = (dio, [])
frame_reports dio (r ∷ reports) now_us =
    let (dio, out) = dio_frame_report dio r now_us in
    let (dio, later) = frame_reports dio reports now_us in (dio, out ++ later)

is_lost_state : LinkState → Bool
is_lost_state lost = true
is_lost_state init = false
is_lost_state up = false

is_up_state : LinkState → Bool
is_up_state up = true
is_up_state init = false
is_up_state lost = false

-- `max(1, int(round(t_out + t_back)))` of two whole numbers.
abbrev pub trip_us : ℕ → ℕ → ℕ
trip_us t_out t_back = if ltb 1 (t_out + t_back) then t_out + t_back else 1

both_legs :
    VirtualWire → ℕ → VirtualWire × Option ℕ → Option VirtualWire × Option VirtualWire × Option ℕ
both_legs out t_out (back, none) = (some out, some back, none)
both_legs out t_out (back, some t_back) = (some out, some back, some (trip_us t_out t_back))

return_leg :
    VirtualWire × Option ℕ → VirtualWire → Draw → Option VirtualWire × Option VirtualWire × Option ℕ
return_leg (out, none) back draw = (some out, some back, none)
return_leg (out, some t_out) back draw = both_legs out t_out (Wire.transit_us back draw)

-- One way out and the way back, if both wires are there and join the same two nodes: the wires after
-- it, and the time of the round trip unless a leg is lost.
pub round_trip :
    Option VirtualWire
    → Option VirtualWire
    → Draw
    → Draw
    → Option VirtualWire × Option VirtualWire × Option ℕ
round_trip none back draw_out draw_back = (none, back, none)
round_trip (some out) none draw_out draw_back = (some out, none, none)
round_trip (some out) (some back) draw_out draw_back =
    if out.rx_id == back.tx_id
    then return_leg (Wire.transit_us out draw_out) back draw_back
    else (some out, some back, none)

-- The handshake has failed.
pub timed_out : DioRuntime → DioRuntime × List Output
timed_out dio =
    let timeouts = dio.consec_timeouts + 1 in
    let counted = record dio {
      handshakes_timeout = dio.handshakes_timeout + 1;
      consec_timeouts = timeouts;
    } in
    if leb dio.config.lost_after_timeouts timeouts && not (is_lost_state dio.link_state)
    then (record counted { link_state = lost }, event (link_lost timeouts dio.handshakes_ok) 0 ∷ [])
    else (counted, [])

-- The handshake took `rtt`.
pub answered : DioRuntime → ℕ → DioRuntime × List Output
answered dio rtt =
    let counted = record dio {
      handshakes_ok = dio.handshakes_ok + 1;
      consec_timeouts = 0;
      last_rtt_us = some rtt;
    } in
    if is_up_state dio.link_state then (counted, rtt_sample rtt ∷ []) else (
      record counted { link_state = up },
      event (link_up rtt dio.handshakes_timeout) 0 ∷ rtt_sample rtt ∷ [],
    )

unfoldable pub conclude : DioRuntime → Option ℕ → DioRuntime × List Output
unfolding timed_out answered is_lost_state is_up_state
conclude dio none = timed_out dio
conclude dio (some rtt) = answered dio rtt

unfoldable pub dio_handshake : DioRuntime → Draw → Draw → DioRuntime × List Output
unfolding round_trip return_leg both_legs
dio_handshake dio draw_out draw_back =
    let (out, back, rtt) = round_trip dio.out_wire dio.in_wire draw_out draw_back in
    conclude (record dio { out_wire = out; in_wire = back }) rtt

unfoldable pub dio_on_boot : Pins → ℕ → Draw → Pins
unfolding drive_dio drive_out
dio_on_boot pins now_us draw = elim (pins.dio) [
  | none ↦ record pins { gpio_out = [] }
  | some dio ↦ record pins {
    gpio_out = [];
    dio =
        drive_dio
          (some (record dio {
            monitor = fresh_monitor;
            tx_seq = 0;
            frames_sent = 0;
            link_state = init;
            consec_timeouts = 0;
            last_rtt_us = none;
          }))
          0 now_us draw;
  }
]

-- `gpio_out.get(PIN_TX_DATA, 0)`
abbrev pub tx_level : Pins → ℕ
tx_level pins = elim (get pin_tx_data pins.gpio_out) [ none ↦ 0 | some level ↦ level ]

-- A node without a link raises a ValueError.
pub data NoDio : Type 0 where
  no_dio_link : NoDio

unfoldable pub dio_attach_out : Pins → VirtualWire → Result NoDio Pins
dio_attach_out pins wire = elim (pins.dio) [
  | none ↦ err no_dio_link
  | some dio ↦ done (record pins {
    dio = some (record dio { out_wire = some (Wire.reset_level wire (tx_level pins)) });
  })
]

unfoldable pub dio_attach_in : Pins → VirtualWire → Result NoDio Pins
dio_attach_in pins wire = elim (pins.dio) [
  | none ↦ err no_dio_link
  | some dio ↦ done (record pins { dio = some (record dio { in_wire = some wire }) })
]
