-- ===== src/Sim/Wire/Runs.antt =====
-- transports/sim/network.py, `VirtualWire`: the calls that the two nodes at the ends of a wire make.
use espstation.Common.{ℕ, List, [], ◌∷◌, ◌++◌, Bytes, if◌then◌else◌}
use espstation.Sim.Wire.{
  VirtualWire, WireConfig, Draw, Noise, is_lost, carried, send_level, poll, transit_us, carry_frame,
  pop_frames,
}

-- One call of the sender (`drive`, `carry`), of the receiver (`look`, `take_due`) or of either
-- (`leg`), with what it draws.
pub data Operation : Type 0 where
  drive : ℕ → ℕ → Draw → Operation
  carry : Bytes → ℕ → Draw → (ℕ → ℕ) → Operation
  look : ℕ → Noise → Operation
  take_due : ℕ → Operation
  leg : Draw → Operation

-- The wire after a call, and the frames that the call hands out.
unfoldable pub perform : VirtualWire → Operation → VirtualWire × List Bytes
perform wire (drive level t_us draw) = (send_level wire level t_us draw, [])
perform wire (carry bits t_us draw draws) = (carry_frame wire bits t_us draw draws, [])
perform wire (look now_us noise) = ((poll wire now_us noise).0, [])
perform wire (take_due now_us) = pop_frames wire now_us
perform wire (leg draw) = ((transit_us wire draw).0, [])

unfoldable pub run : VirtualWire → List Operation → VirtualWire × List Bytes
run wire [] = (wire, [])
run wire (op ∷ ops) =
    let (wire, out) = perform wire op in let (wire, later) = run wire ops in (wire, out ++ later)

-- The frames that calls put on the wire: those that are not lost, with the bits that were flipped.
unfoldable pub accepted_by : WireConfig → Operation → List Bytes
unfolding carried
accepted_by config (carry bits t_us draw draws) =
    if is_lost config draw then [] else (carried config bits draws).0 ∷ []
accepted_by config (drive level t_us draw) = []
accepted_by config (look now_us noise) = []
accepted_by config (take_due now_us) = []
accepted_by config (leg draw) = []

unfoldable pub accepted : WireConfig → List Operation → List Bytes
accepted config [] = []
accepted config (op ∷ ops) = accepted_by config op ++ accepted config ops
