-- ===== src/Sim/Wire/Shown.antt =====
-- transports/sim/network.py: the level that the receiver of a wire without losses and glitches sees.
use espstation.Common.{ℕ, ◌≤◌, ◌≡◌, refl, ap, sym, ◌∙◌, arith, List, [], ◌∷◌, Bytes}
use espstation.Sim.Wire.{
  VirtualWire, Entry, Draw, Noise, push, poll, send_level, schedule_edge, count_edge, lose_edge,
  carry_frame, count_frame, transit_us, count_leg, pop_frames,
}
use espstation.Sim.Wire.Runs.{Operation, drive, carry, look, take_due, leg, perform, run}
use espstation.Sim.Wire.Clean.{level_after, IsClean, send_level-IsClean}
use espstation.Sim.Wire.Settling.{
  poll_clean, poll-IsClean, run-IsClean, perform-IsClean, carry_frame-IsClean, transit_us-IsClean,
}

-- The level that calls send last.
abbrev pub last_level : ℕ → List Operation → ℕ
last_level level [] = level
last_level level (drive sent t draw ∷ ops) = last_level sent ops
last_level level (carry bits t draw draws ∷ ops) = last_level level ops
last_level level (look now noise ∷ ops) = last_level level ops
last_level level (take_due now ∷ ops) = last_level level ops
last_level level (leg draw ∷ ops) = last_level level ops

send_level-last_sent :
    (wire : VirtualWire) (level t : ℕ) (draw : Draw)
    → (send_level wire level t draw).last_sent ≡ level
unfolding send_level schedule_edge count_edge lose_edge push
send_level-last_sent wire level t draw = ground arith

carry_frame-last_sent :
    (wire : VirtualWire) (bits : Bytes) (t : ℕ) (draw : Draw) (draws : ℕ → ℕ)
    → (carry_frame wire bits t draw draws).last_sent ≡ wire.last_sent
unfolding carry_frame count_frame
carry_frame-last_sent wire bits t draw draws = ground arith

transit_us-last_sent :
    (wire : VirtualWire) (draw : Draw) → (transit_us wire draw).0.last_sent ≡ wire.last_sent
unfolding transit_us count_leg
transit_us-last_sent wire draw = ground arith

run-last_sent :
    (wire : VirtualWire) (ops : List Operation)
    → IsClean wire
    → (run wire ops).0.last_sent ≡ last_level wire.last_sent ops
unfolding run perform pop_frames
run-last_sent wire [] clean = refl
run-last_sent wire (drive level t draw ∷ ops) clean =
    run-last_sent (send_level wire level t draw) ops (send_level-IsClean wire level t draw clean)
    ∙ ap (λ (l : ℕ). last_level l ops) (send_level-last_sent wire level t draw)
run-last_sent wire (carry bits t draw draws ∷ ops) clean =
    run-last_sent (carry_frame wire bits t draw draws) ops
      (carry_frame-IsClean wire bits t draw draws clean)
    ∙ ap (λ (l : ℕ). last_level l ops) (carry_frame-last_sent wire bits t draw draws)
run-last_sent wire (look now noise ∷ ops) clean =
    run-last_sent (poll wire now noise).0 ops (poll-IsClean wire now noise clean)
    ∙ ap (λ (l : ℕ). last_level l ops) (poll_clean wire now noise clean).sent
run-last_sent wire (take_due now ∷ ops) clean =
    run-last_sent (perform wire (take_due now)).0 ops (perform-IsClean wire (take_due now) clean)
run-last_sent wire (leg draw ∷ ops) clean =
    run-last_sent (transit_us wire draw).0 ops (transit_us-IsClean wire draw clean)
    ∙ ap (λ (l : ℕ). last_level l ops) (transit_us-last_sent wire draw)

-- The receiver of a wire that loses no edge and makes no glitches sees the sender's level: after any
-- calls of the two nodes, in any order and with any jitter, a poll at or after the last promised
-- arrival shows the level that was sent last, and leaves nothing scheduled.
pub poll-shows_last :
    (wire : VirtualWire) (ops : List Operation) (now : ℕ) (noise : Noise)
    → IsClean wire
    → (run wire ops).0.last_arrival_us ≤ now
    → ((poll (run wire ops).0 now noise).0.visible ≡ last_level wire.last_sent ops)
      × ((poll (run wire ops).0 now noise).0.heap ≡ [])
poll-shows_last wire ops now noise clean late =
    let after : VirtualWire = (run wire ops).0 in
    let clean' = run-IsClean wire ops clean in
    let settled = poll_clean after now noise clean' in
    let empty = settled.done late in
    (
      settled.shown
          ∙ sym (ap (λ (heap : List Entry). level_after heap (poll after now noise).0.real) empty)
          ∙ settled.latest
          ∙ clean'.latest
          ∙ run-last_sent wire ops clean,
      empty,
    )
