-- ===== src/Tests/SimLink.antt =====
-- Wires, the digital link and the telemetry of simulated nodes, at concrete inputs.
use espstation.Common.{
  Bool, ℕ, ◌+◌, ◌≤◌, ◌≡◌, refl, arith, List, [], ◌∷◌, ◌++◌, Option, none, some, true, false, length,
}
use espstation.Common.{ok as done}
use espstation.Common.Dict.{get, number_key}
use espstation.Protocol.Messages.Fields.{pos, negsuc}
use espstation.Sim.Wire.{VirtualWire, WireConfig, Draw, Noise, new_wire}
use espstation.Sim.Wire
use espstation.Sim.Wire.Runs.{Operation, drive, carry, look, take_due, run, accepted}
use espstation.Sim.Wire.Delivery.{bits_of, IsInOrder, run-delivers}
use espstation.Sim.Wire.Clean.{IsClean}
use espstation.Sim.Wire.Shown.{last_level, poll-shows_last}
use espstation.Sim.Digital.{
  DioConfig, DioRuntime, init, Pins, Event, edge, edge_key, Output, dio_event_limits, new_runtime,
}
use espstation.Sim.Digital.Step.{send_frames, receive_frames}
use espstation.Sim.Digital.Bursts.{burst-received}
use espstation.Sim.Digital.Handshakes.{
  conclude_all, state_for, losses_at_end, answers, losses, IsHistory, conclude_all-state,
  conclude_all-IsHistory,
}
use espstation.Sim.Digital.Limits.{try_all, accounted, pending, try_all-accounts}
use espstation.Sim.Telemetry.{Timed, Due, Store}
use espstation.Sim.Telemetry.Backlog.{Step, due_at, link}

abbrev config : WireConfig
config = record {
  delay_us = 40;
  loss = 0;
  glitch_rate = 0;
  bit_error_rate = 0;
  jitter_us = 4;
  glitch_width_us = 3;
}

abbrev wire : VirtualWire
wire = new_wire 1001 1002 config

abbrev late : Draw
late = record { chance = 7; jitter = pos 3 }

abbrev early : Draw
early = record { chance = 7; jitter = negsuc 3 }

abbrev quiet : Noise
quiet = record { chance = 0; at_us = λ _. 0 }

abbrev dio_config : DioConfig
dio_config = record {
  manual = false;
  blink_half_us = 0;
  handshake_period_us = 1000000;
  frames_per_burst = 3;
  burst_period_us = 1000000;
  lost_after_timeouts = 2;
  event_limits = dio_event_limits;
}

abbrev dio : DioRuntime
dio = new_runtime dio_config

burst-received_example :
    (wire' : VirtualWire) × (dio' : DioRuntime) × (out : List Output) × (send_frames 3 0 wire 500
        (λ _. late)
        (λ _. λ _. 9)
      ≡ done wire')
    × (receive_frames
          (Wire.pop_frames wire' (wire'.last_arrival_us + 10)).1
          dio
          (wire'.last_arrival_us + 10)
        ≡ done (dio', out))
    × (dio'.monitor.stats.frames_ok ≡ 0 + 3)
    × (dio'.monitor.stats.frames_crc_err ≡ 0)
    × (dio'.monitor.stats.frames_len_err ≡ 0)
    × (dio'.monitor.stats.bit_errors ≡ 0)
    × (dio'.monitor.expected ≡ 0 + 3)
burst-received_example =
    burst-received 3 0 wire 500 10 (λ _. late) (λ _. λ _. 9) dio refl refl refl refl refl

abbrev traffic : List Operation
traffic =
    carry (1 ∷ 0 ∷ []) 100 late (λ _. 9)
    ∷ drive 1 110 late
    ∷ carry (1 ∷ 1 ∷ []) 111 early (λ _. 9)
    ∷ take_due 145
    ∷ []

run-delivers_example :
    ((run wire traffic).1 ++ bits_of (run wire traffic).0.frames
      ≡ bits_of wire.frames ++ accepted wire.config traffic)
    × IsInOrder (run wire traffic).0
run-delivers_example = run-delivers wire traffic (omega arith)

wire-IsClean : IsClean wire
wire-IsClean = record {
  lossless = refl;
  steady = refl;
  calm = refl;
  shown = refl;
  latest = refl;
  scheduled = tt;
}

abbrev blinks : List Operation
blinks = drive 1 100 late ∷ drive 0 130 early ∷ []

blinks_settle : (run wire blinks).0.last_arrival_us ≤ 180
unfolding run Wire.Runs.perform Wire.send_level Wire.one_way_us Wire.arrival_us
blinks_settle = omega arith

poll-shows_last_example :
    ((Wire.poll (run wire blinks).0 180 quiet).0.visible ≡ last_level wire.last_sent blinks)
    × ((Wire.poll (run wire blinks).0 180 quiet).0.heap ≡ [])
poll-shows_last_example = poll-shows_last wire blinks 180 quiet wire-IsClean blinks_settle

abbrev outcomes : List (Option ℕ)
outcomes = some 90 ∷ none ∷ none ∷ none ∷ some 88 ∷ none ∷ []

conclude_all-state_example :
    ((conclude_all dio outcomes).0.link_state
      ≡ state_for 2 (losses_at_end 0 outcomes) (answers outcomes))
    × ((conclude_all dio outcomes).0.consec_timeouts ≡ losses_at_end 0 outcomes)
    × ((conclude_all dio outcomes).0.handshakes_ok ≡ 0 + answers outcomes)
    × ((conclude_all dio outcomes).0.handshakes_timeout ≡ 0 + losses outcomes)
conclude_all-state_example = conclude_all-state dio outcomes (omega arith) refl refl

conclude_all-IsHistory_example :
    IsHistory init (conclude_all dio outcomes).1 (conclude_all dio outcomes).0.link_state
conclude_all-IsHistory_example = conclude_all-IsHistory dio outcomes

abbrev edges : List (ℕ × Event)
edges =
    (1000, edge 1 1)
    ∷ (2000, edge 0 2)
    ∷ (3000, edge 1 3)
    ∷ (4000, edge 0 4)
    ∷ (5000, edge 1 5)
    ∷ (6000, edge 0 6)
    ∷ (2000000, edge 1 7)
    ∷ []

fresh_pending : pending dio edge_key ≡ 0
unfolding pending get
fresh_pending = refl

try_all-accounts_example :
    accounted (try_all dio edge_key edges).1 + pending (try_all dio edge_key edges).0 edge_key
    ≡ pending dio edge_key + length edges
try_all-accounts_example = try_all-accounts dio edge_key edges (omega (arith, fresh_pending))

abbrev pins : Pins
pins = record { gpio_out = []; dio = some dio }

abbrev packs : ℕ → ℕ → Bool
packs enc value = true

abbrev waiting : Timed ℕ
waiting = record { ts_ms = 5; due = record { ch = 1; enc = 4; value = 9 } }

abbrev store : Store ℕ
store = record {
  link_dropped = true;
  link_was_lost_pending = false;
  backlog = waiting ∷ [];
  running = true;
  run_samples = 0;
}

abbrev sample : ℕ → Due ℕ
sample n = record { ch = 1; enc = 4; value = n }

abbrev outage : List (Step ℕ)
outage =
    due_at 10 (sample 1 ∷ [])
    ∷ link true
    ∷ due_at 20 (sample 2 ∷ sample 3 ∷ [])
    ∷ due_at 30 (sample 4 ∷ [])
    ∷ link false
    ∷ due_at 40 (sample 5 ∷ [])
    ∷ []
