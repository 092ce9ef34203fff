-- ===== src/Sim/Wire/Delivery.antt =====
-- transports/sim/network.py, `carry_frame` and `pop_frames`: the order in which frames arrive.
use espstation.Common.{
  ℕ, zero, suc, ◌+◌, ◌-◌, ◌≤◌, ◌<◌, ◌≡◌, refl, ap, sym, ◌∙◌, arith, List, [], ◌∷◌, ◌++◌,
  append_assoc, append-nil, Bytes, Option, none, some, leb, ltb, Bool-cases, inl, inr, true, false,
}
use espstation.Sim.Wire.{
  VirtualWire, Entry, Draw, Noise, Change, is_lost, carried, arrival_us, due_frames, later_frames,
  pop_frames, carry_frame, send_level, poll, push, settle, show, apply_change, transit_us,
  inject_glitches, glitch_count, schedule_edge, count_edge, lose_edge, count_frame, glitches_since,
  add_glitches, count_leg, set, glitch_on, glitch_off,
}
use espstation.Sim.Wire.Runs.{
  Operation, drive, carry, look, take_due, leg, perform, run, accepted_by, accepted,
}

-- Times in order, from `lo` on and up to `hi`.
abbrev pub IsBetween : ℕ → List (ℕ × Bytes) → ℕ → Type 0
IsBetween lo [] hi = lo ≤ hi
IsBetween lo ((t, bits) ∷ frames) hi = (lo ≤ t) × IsBetween t frames hi

-- The bits of frames that wait.
abbrev pub bits_of : List (ℕ × Bytes) → List Bytes
bits_of [] = []
bits_of ((t, bits) ∷ frames) = bits ∷ bits_of frames

bits_of-append : (xs ys : List (ℕ × Bytes)) → bits_of (xs ++ ys) ≡ bits_of xs ++ bits_of ys
bits_of-append [] ys = refl
bits_of-append ((t, bits) ∷ xs) ys = ap (◌∷◌ bits) (bits_of-append xs ys)

IsBetween-snoc :
    (lo hi t : ℕ) (bits : Bytes) (frames : List (ℕ × Bytes))
    → IsBetween lo frames hi
    → hi ≤ t
    → IsBetween lo (frames ++ (t, bits) ∷ []) t
IsBetween-snoc lo hi t bits [] h le = omega arith
IsBetween-snoc lo hi t bits ((u, b) ∷ frames) (h, hs) le =
    (h, IsBetween-snoc u hi t bits frames hs le)

IsBetween-later : (lo hi : ℕ) (frames : List (ℕ × Bytes)) → IsBetween lo frames hi → lo ≤ hi
IsBetween-later lo hi [] h = h
IsBetween-later lo hi ((t, b) ∷ frames) (h, hs) = omega (arith, IsBetween-later t hi frames hs)

IsBetween-weaken :
    (lo lo' hi hi' : ℕ) (frames : List (ℕ × Bytes))
    → lo' ≤ lo
    → hi ≤ hi'
    → IsBetween lo frames hi
    → IsBetween lo' frames hi'
IsBetween-weaken lo lo' hi hi' [] le le' h = omega arith
IsBetween-weaken lo lo' hi hi' ((t, b) ∷ frames) le le' (h, hs) =
    (omega arith, IsBetween-weaken t t hi hi' frames (omega arith) le' hs)

later_frames-IsBetween :
    (lo hi now : ℕ) (frames : List (ℕ × Bytes))
    → IsBetween lo frames hi
    → IsBetween lo (later_frames frames now) hi
unfolding later_frames
later_frames-IsBetween lo hi now [] h = h
later_frames-IsBetween lo hi now ((t, b) ∷ frames) (h, hs) = elim (Bool-cases (ltb now t)) [
  | inl e ↦ rw e (h, later_frames-IsBetween t hi now frames hs)
  | inr e ↦ rw e (
      IsBetween-weaken t lo hi hi (later_frames frames now) h (omega arith)
        (later_frames-IsBetween t hi now frames hs))
]

-- Before the first arrival nothing is due.
due_frames-early :
    (lo hi now : ℕ) (frames : List (ℕ × Bytes))
    → IsBetween lo frames hi
    → now < lo
    → (due_frames frames now ≡ []) × (later_frames frames now ≡ frames)
unfolding due_frames later_frames
due_frames-early lo hi now [] h le = (refl, refl)
due_frames-early lo hi now ((t, b) ∷ frames) (h, hs) le =
    ground (arith, due_frames-early t hi now frames hs)

-- What is due and what waits are the frames that waited.
pub due_frames-later :
    (lo hi now : ℕ) (frames : List (ℕ × Bytes))
    → IsBetween lo frames hi
    → due_frames frames now ++ bits_of (later_frames frames now) ≡ bits_of frames
unfolding due_frames later_frames
due_frames-later lo hi now [] h = refl
due_frames-later lo hi now ((t, b) ∷ frames) (h, hs) = elim (Bool-cases (leb t now)) [
  | inl e ↦
      let e' : ltb now t ≡ false = ground arith in
      rw (e, e') (ap (◌∷◌ b) (due_frames-later t hi now frames hs))
  | inr e ↦
      let e' : ltb now t ≡ true = ground arith in
      let (none_due, all_later) = due_frames-early t hi now frames hs (ground arith) in
      rw (e, e') (rw (none_due, all_later) refl)
]

-- After the last arrival everything is due.
pub due_frames-all :
    (lo hi now : ℕ) (frames : List (ℕ × Bytes))
    → IsBetween lo frames hi
    → hi ≤ now
    → due_frames frames now ≡ bits_of frames
unfolding due_frames
due_frames-all lo hi now [] h late = refl
due_frames-all lo hi now ((t, b) ∷ frames) (h, hs) late =
    let due : leb t now ≡ true = ground (arith, IsBetween-later t hi frames hs) in
    rw due (ap (◌∷◌ b) (due_frames-all t hi now frames hs late))

-- The frames that wait on a wire are in the order of their arrival, and none arrives after the last
-- arrival that the wire has promised.
abbrev pub IsInOrder : VirtualWire → Type 0
IsInOrder wire = IsBetween 0 wire.frames wire.last_arrival_us

-- What a call on levels leaves alone: the frames, the configuration, and the promise but for a
-- later one.
abbrev Keeps : VirtualWire → VirtualWire → Type 0
Keeps wire wire' =
    (wire'.frames ≡ wire.frames)
    × (wire'.config ≡ wire.config)
    × (wire.last_arrival_us ≤ wire'.last_arrival_us)

send_level-Keeps :
    (wire : VirtualWire) (level t_us : ℕ) (draw : Draw)
    → Keeps wire (send_level wire level t_us draw)
unfolding send_level schedule_edge count_edge lose_edge push arrival_us
send_level-Keeps wire level t_us draw = ground arith

add_glitches-Keeps :
    (n : ℕ) (at_us : ℕ → ℕ) (wire : VirtualWire) → Keeps wire (add_glitches n at_us wire)
unfolding add_glitches push
add_glitches-Keeps zero at_us wire = (refl, refl, omega arith)
add_glitches-Keeps (suc n) at_us wire =
    let w : VirtualWire = push wire (at_us 0) glitch_on in
    let w : VirtualWire = push w (at_us 0 + wire.config.glitch_width_us) glitch_off in
    add_glitches-Keeps n (λ k. at_us (suc k))
      (record w { counters = record wire.counters { glitches = wire.counters.glitches + 1 } })

glitches_since-Keeps :
    (last : Option ℕ) (wire : VirtualWire) (now : ℕ) (noise : Noise)
    → Keeps wire (glitches_since last wire now noise)
unfolding glitches_since
glitches_since-Keeps none wire now noise = (refl, refl, omega arith)
glitches_since-Keeps (some last) wire now noise = ground (
  arith,
  add_glitches-Keeps (glitch_count wire.config (now - last) noise.chance) noise.at_us wire,
)

apply_change-Keeps : (change : Change) (wire : VirtualWire) → Keeps wire (apply_change change wire)
unfolding apply_change
apply_change-Keeps (set level) wire = (refl, refl, omega arith)
apply_change-Keeps glitch_on wire = (refl, refl, omega arith)
apply_change-Keeps glitch_off wire = (refl, refl, omega arith)

show-Keeps : (wire : VirtualWire) (t_us : ℕ) → Keeps wire (show wire t_us).0
unfolding show
show-Keeps wire t_us = ground arith

settle-Keeps :
    (heap : List Entry) (wire : VirtualWire) (now : ℕ) → Keeps wire (settle heap wire now).0
unfolding settle
settle-Keeps [] wire now = (refl, refl, omega arith)
settle-Keeps (e ∷ heap) wire now =
    let shown : VirtualWire = (show (apply_change e.change wire) e.at_us).0 in
    let (f1, c1, l1) = apply_change-Keeps e.change wire in
    let (f2, c2, l2) = show-Keeps (apply_change e.change wire) e.at_us in
    let (f3, c3, l3) = settle-Keeps heap shown now in
    elim (Bool-cases (leb e.at_us now)) [
      | inl due ↦ rw due (f3 ∙ f2 ∙ f1, c3 ∙ c2 ∙ c1, omega arith)
      | inr early ↦ rw early (refl, refl, omega arith)
    ]

poll-Keeps : (wire : VirtualWire) (now : ℕ) (noise : Noise) → Keeps wire (poll wire now noise).0
unfolding poll inject_glitches
poll-Keeps wire now noise =
    let w : VirtualWire = glitches_since wire.last_poll_us wire now noise in
    let (f1, c1, l1) = glitches_since-Keeps wire.last_poll_us wire now noise in
    let (f2, c2, l2) = settle-Keeps w.heap w now in (f2 ∙ f1, c2 ∙ c1, omega arith)

transit_us-Keeps : (wire : VirtualWire) (draw : Draw) → Keeps wire (transit_us wire draw).0
unfolding transit_us count_leg
transit_us-Keeps wire draw = ground arith

-- What a call does to the frames: it keeps their order, and what it hands out with what then waits is
-- what waited with what it accepted.
abbrev pub Conserves : VirtualWire → Operation → Type 0
Conserves wire op =
    IsInOrder (perform wire op).0
    × ((perform wire op).1 ++ bits_of (perform wire op).0.frames
        ≡ bits_of wire.frames ++ accepted_by wire.config op)
    × ((perform wire op).0.config ≡ wire.config)

Keeps-Conserves :
    (wire wire' : VirtualWire)
    → IsInOrder wire
    → Keeps wire wire'
    → IsInOrder wire'
      × (bits_of wire'.frames ≡ bits_of wire.frames ++ [])
      × (wire'.config ≡ wire.config)
Keeps-Conserves wire wire' ordered (f, c, l) = (
  rw f (
      IsBetween-weaken 0 0 wire.last_arrival_us wire'.last_arrival_us wire.frames (omega arith) l
        ordered),
  rw f (sym (append-nil (bits_of wire.frames))),
  c,
)

-- A frame that is carried.
pub carry_frame-Conserves :
    (wire : VirtualWire) (bits : Bytes) (t : ℕ) (draw : Draw) (draws : ℕ → ℕ)
    → IsInOrder wire
    → Conserves wire (carry bits t draw draws)
unfolding perform carry_frame count_frame accepted_by arrival_us
carry_frame-Conserves wire bits t draw draws ordered =
    elim (Bool-cases (is_lost wire.config draw)) [
      | inl lost ↦ rw lost (ordered, sym (append-nil (bits_of wire.frames)), refl)
      | inr kept ↦
          let late : wire.last_arrival_us ≤ arrival_us wire t draw = ground arith in
          let sent : Bytes = (carried wire.config bits draws).0 in
          rw kept (
            IsBetween-snoc 0 wire.last_arrival_us (arrival_us wire t draw) sent wire.frames ordered
                late,
            bits_of-append wire.frames ((arrival_us wire t draw, sent) ∷ []),
            refl,
          )
    ]

perform-Conserves : (wire : VirtualWire) (op : Operation) → IsInOrder wire → Conserves wire op
unfolding perform accepted_by pop_frames
perform-Conserves wire (drive level t draw) ordered =
    Keeps-Conserves wire (send_level wire level t draw) ordered (send_level-Keeps wire level t draw)
perform-Conserves wire (carry bits t draw draws) ordered =
    carry_frame-Conserves wire bits t draw draws ordered
perform-Conserves wire (look now noise) ordered =
    Keeps-Conserves wire (poll wire now noise).0 ordered (poll-Keeps wire now noise)
perform-Conserves wire (take_due now) ordered = (
  later_frames-IsBetween 0 wire.last_arrival_us now wire.frames ordered,
  due_frames-later 0 wire.last_arrival_us now wire.frames ordered
      ∙ sym (append-nil (bits_of wire.frames)),
  refl,
)
perform-Conserves wire (leg draw) ordered =
    Keeps-Conserves wire (transit_us wire draw).0 ordered (transit_us-Keeps wire draw)

-- Every frame that a wire accepts is handed out once, and in the order of sending: after any calls
-- of the two nodes on a wire whose waiting frames are in order, the frames handed out, followed by
-- those that wait, are the frames that waited followed by those that the calls put on the wire (the
-- ones that were not lost, as their bits were flipped); and the waiting frames are in order again.
pub run-delivers :
    (wire : VirtualWire) (ops : List Operation)
    → IsInOrder wire
    → ((run wire ops).1 ++ bits_of (run wire ops).0.frames
        ≡ bits_of wire.frames ++ accepted wire.config ops)
      × IsInOrder (run wire ops).0
unfolding run accepted
run-delivers wire [] ordered = (sym (append-nil (bits_of wire.frames)), ordered)
run-delivers wire (op ∷ ops) ordered =
    let (ordered', moved, config) = perform-Conserves wire op ordered in
    let (later, ordered'') = run-delivers (perform wire op).0 ops ordered' in
    (
      append_assoc (perform wire op).1 _ _
          ∙ ap (◌++◌ (perform wire op).1) later
          ∙ rw config refl
          ∙ sym (append_assoc (perform wire op).1 _ _)
          ∙ ap (λ (l : List Bytes). l ++ accepted wire.config ops) moved
          ∙ append_assoc (bits_of wire.frames) _ _,
      ordered'',
    )
