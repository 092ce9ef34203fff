-- ===== src/Sim/Wire.antt =====
-- transports/sim/network.py, `VirtualWire`: one direction of a cable between two nodes. Times are
-- whole microseconds; a probability and the draw compared with it are millionths. What the random
-- generator gives is an argument.
pub mod Runs
pub mod Levels
pub mod Clean
pub mod Settling
pub mod Shown
pub mod Delivery
use espstation.Common.{
  ℕ, zero, suc, ◌+◌, ◌-◌, ◌*◌, ◌/◌, ◌%◌, List, [], ◌∷◌, ◌++◌, Option, none, some, Bool, true, false,
  ◌||◌, ◌==◌, ltb, leb, if◌then◌else◌, bit_xor, Bytes,
}
use espstation.Protocol.Messages.Fields.{ℤ, pos, negsuc}

pub record WireConfig : Type 0 where
  pub delay_us : ℕ
  pub loss : ℕ
  pub glitch_rate : ℕ
  pub bit_error_rate : ℕ
  pub jitter_us : ℕ
  pub glitch_width_us : ℕ

-- `_EV_SET` with its level, `_EV_GLITCH_ON` and `_EV_GLITCH_OFF`.
pub data Change : Type 0 where
  set : ℕ → Change
  glitch_on glitch_off : Change

pub record Entry : Type 0 where
  pub at_us : ℕ
  pub tiebreak : ℕ
  pub change : Change

pub record Counters : Type 0 where
  pub edges_sent : ℕ
  pub edges_lost : ℕ
  pub glitches : ℕ
  pub frames_sent : ℕ
  pub frames_dropped : ℕ
  pub bits_flipped : ℕ
  pub legs_sent : ℕ
  pub legs_lost : ℕ

pub record VirtualWire : Type 0 where
  pub tx_id : ℕ
  pub rx_id : ℕ
  pub config : WireConfig
  pub heap : List Entry
  pub tiebreak : ℕ
  pub last_sent : ℕ
  pub real : ℕ
  pub glitching : ℤ
  pub visible : ℕ
  pub last_arrival_us : ℕ
  pub last_poll_us : Option ℕ
  pub frames : List (ℕ × Bytes)
  pub counters : Counters

abbrev no_counts : Counters
no_counts = record {
  edges_sent = 0;
  edges_lost = 0;
  glitches = 0;
  frames_sent = 0;
  frames_dropped = 0;
  bits_flipped = 0;
  legs_sent = 0;
  legs_lost = 0;
}

abbrev pub new_wire : ℕ → ℕ → WireConfig → VirtualWire
new_wire tx_id rx_id config = record {
  tx_id = tx_id;
  rx_id = rx_id;
  config = config;
  heap = [];
  tiebreak = 0;
  last_sent = 0;
  real = 0;
  glitching = pos 0;
  visible = 0;
  last_arrival_us = 0;
  last_poll_us = none;
  frames = [];
  counters = no_counts;
}

unfoldable pub reset_level : VirtualWire → ℕ → VirtualWire
reset_level wire level = record wire {
  last_sent = level;
  real = level;
  visible = level;
  heap = [];
  glitching = pos 0;
}

-- The order of the heap: by time, then by the number of the push.
pub is_before : Entry → Entry → Bool
is_before a b = if a.at_us == b.at_us then ltb a.tiebreak b.tiebreak else ltb a.at_us b.at_us

-- `heapq.heappush`, on the heap's entries in the order in which they are popped.
pub heappush : Entry → List Entry → List Entry
heappush entry [] = entry ∷ []
heappush entry (e ∷ heap) = if is_before entry e then entry ∷ e ∷ heap else e ∷ heappush entry heap

pub push : VirtualWire → ℕ → Change → VirtualWire
push wire t_us change = record wire {
  tiebreak = wire.tiebreak + 1;
  heap =
      heappush (record { at_us = t_us; tiebreak = wire.tiebreak + 1; change = change }) wire.heap;
}

-- `max(0, delay_us + uniform(-jitter_us, jitter_us))`, given the drawn number.
unfoldable pub one_way_us : WireConfig → ℤ → ℕ
one_way_us config (pos drawn) = config.delay_us + drawn
one_way_us config (negsuc drawn) = config.delay_us - suc drawn

-- What one sending draws: a number that decides about a loss, and the jitter.
pub record Draw : Type 0 where
  pub chance : ℕ
  pub jitter : ℤ

abbrev pub is_lost : WireConfig → Draw → Bool
is_lost config draw = ltb draw.chance config.loss

abbrev pub max : ℕ → ℕ → ℕ
max a b = if ltb a b then b else a

unfoldable pub arrival_us : VirtualWire → ℕ → Draw → ℕ
arrival_us wire t_us draw = max (t_us + one_way_us wire.config draw.jitter) wire.last_arrival_us

schedule_edge : VirtualWire → ℕ → ℕ → Draw → VirtualWire
schedule_edge wire level t_us draw =
    let arrival = arrival_us wire t_us draw in
    push (record wire { last_arrival_us = arrival }) arrival (set level)

count_edge : VirtualWire → ℕ → VirtualWire
count_edge wire level = record wire {
  last_sent = level;
  counters = record wire.counters { edges_sent = wire.counters.edges_sent + 1 };
}

lose_edge : VirtualWire → VirtualWire
lose_edge wire = record wire {
  counters = record wire.counters { edges_lost = wire.counters.edges_lost + 1 };
}

unfoldable pub send_level : VirtualWire → ℕ → ℕ → Draw → VirtualWire
unfolding schedule_edge count_edge lose_edge push arrival_us
send_level wire level t_us draw =
    if level == wire.last_sent
    then wire
    else if is_lost wire.config draw
    then lose_edge (count_edge wire level)
    else schedule_edge (count_edge wire level) level t_us draw

-- What a poll draws: whether the broken part of a glitch counts, and when each glitch falls.
pub record Noise : Type 0 where
  pub chance : ℕ
  pub at_us : ℕ → ℕ

-- The loop over the glitches of `_inject_glitches`.
add_glitches : ℕ → (ℕ → ℕ) → VirtualWire → VirtualWire
add_glitches zero at_us wire = wire
add_glitches (suc n) at_us wire =
    let wire = push wire (at_us 0) glitch_on in
    let wire = push wire (at_us 0 + wire.config.glitch_width_us) glitch_off in
    add_glitches n (λ k. at_us (suc k))
      (record wire { counters = record wire.counters { glitches = wire.counters.glitches + 1 } })

-- How many glitches fall into an interval: `int(expected)`, and one more by chance.
glitch_count : WireConfig → ℕ → ℕ → ℕ
glitch_count config interval_us chance =
    let millionths = config.glitch_rate * interval_us in
    millionths / 1000000 + (if ltb chance (millionths % 1000000) then 1 else 0)

glitches_since : Option ℕ → VirtualWire → ℕ → Noise → VirtualWire
glitches_since none wire now_us noise = wire
glitches_since (some last) wire now_us noise =
    if wire.config.glitch_rate == 0 || leb now_us last
    then wire
    else add_glitches (glitch_count wire.config (now_us - last) noise.chance) noise.at_us wire

unfoldable pub inject_glitches : VirtualWire → ℕ → Noise → VirtualWire
unfolding glitches_since add_glitches glitch_count push
inject_glitches wire now_us noise = glitches_since wire.last_poll_us wire now_us noise

-- `_glitching += 1` and `_glitching -= 1`.
pub increment : ℤ → ℤ
increment (pos n) = pos (suc n)
increment (negsuc zero) = pos 0
increment (negsuc (suc n)) = negsuc n

pub decrement : ℤ → ℤ
decrement (pos zero) = negsuc 0
decrement (pos (suc n)) = pos n
decrement (negsuc n) = negsuc (suc n)

pub is_positive : ℤ → Bool
is_positive (pos zero) = false
is_positive (pos (suc n)) = true
is_positive (negsuc n) = false

pub apply_change : Change → VirtualWire → VirtualWire
apply_change (set level) wire = record wire { real = level }
apply_change glitch_on wire = record wire { glitching = increment wire.glitching }
apply_change glitch_off wire = record wire { glitching = decrement wire.glitching }

pub seen_level : VirtualWire → ℕ
seen_level wire = bit_xor wire.real (if is_positive wire.glitching then 1 else 0)

-- The part of the loop of `poll` after an entry is popped.
pub show : VirtualWire → ℕ → VirtualWire × List (ℕ × ℕ)
show wire t_us =
    if seen_level wire == wire.visible
    then (wire, [])
    else (record wire { visible = seen_level wire }, (t_us, seen_level wire) ∷ [])

-- The loop of `poll` over the entries that are due.
pub settle : List Entry → VirtualWire → ℕ → VirtualWire × List (ℕ × ℕ)
settle [] wire now_us = (record wire { heap = [] }, [])
settle (e ∷ heap) wire now_us =
    let due : VirtualWire × List (ℕ × ℕ) =
      (let (wire, edge) = show (apply_change e.change wire) e.at_us in
        let (wire, edges) = settle heap wire now_us in (wire, edge ++ edges)) in
    if leb e.at_us now_us then due else (record wire { heap = e ∷ heap }, [])

unfoldable pub poll : VirtualWire → ℕ → Noise → VirtualWire × List (ℕ × ℕ)
unfolding settle show apply_change seen_level increment decrement is_positive
poll wire now_us noise =
    let wire = inject_glitches wire now_us noise in
    let (wire, edges) = settle wire.heap wire now_us in
    (record wire { last_poll_us = some now_us }, edges)

count_leg : VirtualWire → ℕ → VirtualWire
count_leg wire lost = record wire {
  counters = record wire.counters {
    legs_sent = wire.counters.legs_sent + 1;
    legs_lost = wire.counters.legs_lost + lost;
  };
}

unfoldable pub transit_us : VirtualWire → Draw → VirtualWire × Option ℕ
unfolding count_leg
transit_us wire draw =
    if is_lost wire.config draw
    then (count_leg wire 1, none)
    else (count_leg wire 0, some (one_way_us wire.config draw.jitter))

-- A draw for each bit, below the rate of bit errors: the bit is flipped, and counted.
flip_bits : ℕ → Bytes → (ℕ → ℕ) → Bytes × ℕ
flip_bits ber [] draws = ([], 0)
flip_bits ber (b ∷ bits) draws =
    let (bits, flipped) = flip_bits ber bits (λ n. draws (suc n)) in
    if ltb (draws 0) ber then (bit_xor b 1 ∷ bits, suc flipped) else (b ∷ bits, flipped)

pub carried : WireConfig → Bytes → (ℕ → ℕ) → Bytes × ℕ
carried config bits draws =
    if ltb 0 config.bit_error_rate then flip_bits config.bit_error_rate bits draws else (bits, 0)

count_frame : VirtualWire → ℕ → ℕ → VirtualWire
count_frame wire dropped flipped = record wire {
  counters = record wire.counters {
    frames_sent = wire.counters.frames_sent + 1;
    frames_dropped = wire.counters.frames_dropped + dropped;
    bits_flipped = wire.counters.bits_flipped + flipped;
  };
}

unfoldable pub carry_frame : VirtualWire → Bytes → ℕ → Draw → (ℕ → ℕ) → VirtualWire
unfolding flip_bits carried count_frame
carry_frame wire bits t_us draw draws =
    if is_lost wire.config draw
    then count_frame wire 1 0
    else (let (bits, flipped) = carried wire.config bits draws in
        let arrival = arrival_us wire t_us draw in
        record (count_frame wire 0 flipped) {
          last_arrival_us = arrival;
          frames = wire.frames ++ (arrival, bits) ∷ [];
        })

-- The two comprehensions of `pop_frames`.
pub due_frames : List (ℕ × Bytes) → ℕ → List Bytes
due_frames [] now_us = []
due_frames ((t, bits) ∷ frames) now_us =
    if leb t now_us then bits ∷ due_frames frames now_us else due_frames frames now_us

pub later_frames : List (ℕ × Bytes) → ℕ → List (ℕ × Bytes)
later_frames [] now_us = []
later_frames ((t, bits) ∷ frames) now_us =
    if ltb now_us t then (t, bits) ∷ later_frames frames now_us else later_frames frames now_us

unfoldable pub pop_frames : VirtualWire → ℕ → VirtualWire × List Bytes
unfolding due_frames later_frames
pop_frames wire now_us =
    (record wire { frames = later_frames wire.frames now_us }, due_frames wire.frames now_us)
