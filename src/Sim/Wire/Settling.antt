-- ===== src/Sim/Wire/Settling.antt =====
-- transports/sim/network.py, `VirtualWire.poll` of a wire that loses no edge and has no glitches.
use espstation.Common.{
  ℕ, ◌≤◌, ◌≡◌, refl, ap, sym, ◌∙◌, arith, List, [], ◌∷◌, Option, none, some, ◌==◌, leb, ltb,
  if◌then◌else◌, Bool-cases, inl, inr, true, false, All, bit_xor, Bytes, subst,
}
use espstation.Common.Bits.{bit_xor-zero}
use espstation.Protocol.Messages.Fields.{pos}
use espstation.Sim.Wire.{
  VirtualWire, WireConfig, Entry, Change, set, glitch_on, glitch_off, Draw, Noise, poll, settle,
  show, apply_change, seen_level, is_positive, arrival_us, inject_glitches, glitches_since,
  carry_frame, count_frame, transit_us, count_leg, pop_frames,
}
use espstation.Sim.Wire.Runs.{Operation, drive, carry, look, take_due, leg, perform, run}
use espstation.Sim.Wire.Clean.{
  IsLevelChange, level_of, level_after, IsScheduled, IsClean, IsScheduled-later, late_arrival,
  send_level-IsClean,
}

-- What the loop of a poll keeps of a wire without glitches, and when it leaves nothing to come.
pub record IsSettled (wire : VirtualWire) (heap : List Entry) (now : ℕ) (wire' : VirtualWire)
    : Type 0 where
  config : wire'.config ≡ wire.config
  calm : wire'.glitching ≡ pos 0
  pub shown : wire'.visible ≡ wire'.real
  pub latest : level_after wire'.heap wire'.real ≡ level_after heap wire.real
  pub sent : wire'.last_sent ≡ wire.last_sent
  pub arrival : wire'.last_arrival_us ≡ wire.last_arrival_us
  pub tiebreak : wire'.tiebreak ≡ wire.tiebreak
  pub scheduled : All (IsScheduled wire.last_arrival_us wire.tiebreak) wire'.heap
  pub done : wire.last_arrival_us ≤ now → wire'.heap ≡ []

seen_level-calm : (wire : VirtualWire) → wire.glitching ≡ pos 0 → seen_level wire ≡ wire.real
unfolding seen_level is_positive
seen_level-calm wire calm =
    ap (λ z. bit_xor wire.real (if is_positive z then 1 else 0)) calm ∙ bit_xor-zero wire.real

visible_is :
    (wire : VirtualWire)
    → seen_level wire ≡ wire.real
    → (seen_level wire == wire.visible) ≡ true
    → wire.visible ≡ wire.real
visible_is wire same e = ground arith

-- Without a glitch the shown level is the real one.
show-calm :
    (wire : VirtualWire) (t : ℕ)
    → wire.glitching ≡ pos 0
    → (show wire t).0 ≡ record wire { visible = wire.real }
unfolding show seen_level is_positive
show-calm wire t calm =
    let same : seen_level wire ≡ wire.real = seen_level-calm wire calm in
    elim (Bool-cases (seen_level wire == wire.visible)) [
      | inl e ↦ rw e (λ i. record wire { visible = visible_is wire same e i })
      | inr e ↦ rw e (λ i. record wire { visible = same i })
    ]

settle_step :
    (change : Change) (wire : VirtualWire) (t : ℕ)
    → IsLevelChange change
    → wire.glitching ≡ pos 0
    → (show (apply_change change wire) t).0
      ≡ record wire { real = level_of change wire.real; visible = level_of change wire.real }
unfolding apply_change
settle_step (set level) wire t one calm = show-calm (record wire { real = level }) t calm
settle_step glitch_on wire t one calm = elim one [ ]
settle_step glitch_off wire t one calm = elim one [ ]

settle-IsSettled :
    (heap : List Entry) (wire : VirtualWire) (now : ℕ)
    → wire.glitching ≡ pos 0
    → wire.visible ≡ wire.real
    → All (IsScheduled wire.last_arrival_us wire.tiebreak) heap
    → IsSettled wire heap now (settle heap wire now).0
unfolding settle
settle-IsSettled [] wire now calm shown h = record {
  config = refl;
  calm = calm;
  shown = shown;
  latest = refl;
  sent = refl;
  arrival = refl;
  tiebreak = refl;
  scheduled = tt;
  done = λ _. refl;
}
settle-IsSettled (e ∷ heap) wire now calm shown ((one, at, number), h) =
    elim (Bool-cases (leb e.at_us now)) [
      | inl due ↦
          let next : VirtualWire = record wire {
            real = level_of e.change wire.real;
            visible = level_of e.change wire.real;
          } in
          let rest = settle-IsSettled heap next now calm refl h in
          rw due (
            subst (λ (w : VirtualWire). IsSettled wire (e ∷ heap) now (settle heap w now).0)
              (sym (settle_step e.change wire e.at_us one calm))
              (record {
                config = rest.config;
                calm = rest.calm;
                shown = rest.shown;
                latest = rest.latest;
                sent = rest.sent;
                arrival = rest.arrival;
                tiebreak = rest.tiebreak;
                scheduled = rest.scheduled;
                done = rest.done;
              }))
      | inr early ↦ rw early (record {
        config = refl;
        calm = calm;
        shown = shown;
        latest = refl;
        sent = refl;
        arrival = refl;
        tiebreak = refl;
        scheduled = ((one, at, number), h);
        done = λ le. absurd (ground arith);
      })
    ]

glitches_since-steady :
    (last : Option ℕ) (wire : VirtualWire) (now : ℕ) (noise : Noise)
    → wire.config.glitch_rate ≡ 0
    → glitches_since last wire now noise ≡ wire
unfolding glitches_since
glitches_since-steady none wire now noise steady = refl
glitches_since-steady (some last) wire now noise steady = ground arith

pub poll_clean :
    (wire : VirtualWire) (now : ℕ) (noise : Noise)
    → IsClean wire
    → IsSettled wire wire.heap now (poll wire now noise).0
unfolding poll inject_glitches
poll_clean wire now noise clean =
    let settled = settle-IsSettled wire.heap wire now clean.calm clean.shown clean.scheduled in
    subst
      (λ (w : VirtualWire).
        IsSettled wire wire.heap now (record ((settle w.heap w now).0) { last_poll_us = some now }))
      (sym (glitches_since-steady wire.last_poll_us wire now noise clean.steady))
      (record {
        config = settled.config;
        calm = settled.calm;
        shown = settled.shown;
        latest = settled.latest;
        sent = settled.sent;
        arrival = settled.arrival;
        tiebreak = settled.tiebreak;
        scheduled = settled.scheduled;
        done = settled.done;
      })

pub poll-IsClean :
    (wire : VirtualWire) (now : ℕ) (noise : Noise) → IsClean wire → IsClean (poll wire now noise).0
poll-IsClean wire now noise clean =
    let settled = poll_clean wire now noise clean in
    record {
      lossless = ap (λ (c : WireConfig). c.loss) settled.config ∙ clean.lossless;
      steady = ap (λ (c : WireConfig). c.glitch_rate) settled.config ∙ clean.steady;
      calm = settled.calm;
      shown = settled.shown;
      latest = settled.latest ∙ clean.latest ∙ sym settled.sent;
      scheduled = rw (settled.arrival, settled.tiebreak) settled.scheduled;
    }

-- A call that leaves the levels alone, and promises an arrival that is no earlier.
pub carry_frame-IsClean :
    (wire : VirtualWire) (bits : Bytes) (t : ℕ) (draw : Draw) (draws : ℕ → ℕ)
    → IsClean wire
    → IsClean (carry_frame wire bits t draw draws)
unfolding carry_frame count_frame
carry_frame-IsClean wire bits t draw draws clean =
    let kept : ltb draw.chance wire.config.loss ≡ false = ground (arith, clean.lossless) in
    rw kept (record {
      lossless = clean.lossless;
      steady = clean.steady;
      calm = clean.calm;
      shown = clean.shown;
      latest = clean.latest;
      scheduled =
          IsScheduled-later wire.last_arrival_us (arrival_us wire t draw) wire.tiebreak
            wire.tiebreak wire.heap (late_arrival wire t draw) (omega arith) clean.scheduled;
    })

pub transit_us-IsClean :
    (wire : VirtualWire) (draw : Draw) → IsClean wire → IsClean (transit_us wire draw).0
unfolding transit_us count_leg
transit_us-IsClean wire draw clean =
    let kept : ltb draw.chance wire.config.loss ≡ false = ground (arith, clean.lossless) in
    rw kept (record {
      lossless = clean.lossless;
      steady = clean.steady;
      calm = clean.calm;
      shown = clean.shown;
      latest = clean.latest;
      scheduled = clean.scheduled;
    })

pub perform-IsClean :
    (wire : VirtualWire) (op : Operation) → IsClean wire → IsClean (perform wire op).0
unfolding perform pop_frames
perform-IsClean wire (drive level t draw) clean = send_level-IsClean wire level t draw clean
perform-IsClean wire (carry bits t draw draws) clean =
    carry_frame-IsClean wire bits t draw draws clean
perform-IsClean wire (look now noise) clean = poll-IsClean wire now noise clean
perform-IsClean wire (take_due now) clean = record {
  lossless = clean.lossless;
  steady = clean.steady;
  calm = clean.calm;
  shown = clean.shown;
  latest = clean.latest;
  scheduled = clean.scheduled;
}
perform-IsClean wire (leg draw) clean = transit_us-IsClean wire draw clean

-- Whatever the two nodes call, a clean wire stays clean: the last scheduled edge, or the real level
-- where none is scheduled, is the level that was sent last; every scheduled entry is an edge that is
-- due by the promised arrival; and the receiver sees the real level.
pub run-IsClean :
    (wire : VirtualWire) (ops : List Operation) → IsClean wire → IsClean (run wire ops).0
unfolding run
run-IsClean wire [] clean = clean
run-IsClean wire (op ∷ ops) clean =
    run-IsClean (perform wire op).0 ops (perform-IsClean wire op clean)
