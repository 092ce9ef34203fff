-- ===== src/Sim/Wire/Clean.antt =====
-- transports/sim/network.py, `VirtualWire`: a wire that loses no edge and has no glitches.
use espstation.Common.{
  ℕ, ◌+◌, ◌≤◌, ◌<◌, ◌≡◌, refl, ap, ◌∙◌, arith, List, [], ◌∷◌, ◌++◌, ◌==◌, ltb, Bool-cases, inl, inr,
  false, All, All-append,
}
use espstation.Protocol.Messages.Fields.{pos}
use espstation.Sim.Wire.{
  VirtualWire, Entry, Change, set, glitch_on, glitch_off, Draw, is_before, heappush, push,
  send_level, schedule_edge, count_edge, arrival_us,
}

abbrev pub IsLevelChange : Change → Type 0
IsLevelChange (set level) = Unit
IsLevelChange glitch_on = ⊥
IsLevelChange glitch_off = ⊥

abbrev pub level_of : Change → ℕ → ℕ
level_of (set level) real = level
level_of glitch_on real = real
level_of glitch_off real = real

-- The level of the line when all that is scheduled has happened.
abbrev pub level_after : List Entry → ℕ → ℕ
level_after [] real = real
level_after (e ∷ heap) real = level_after heap (level_of e.change real)

-- A scheduled edge, no later than the promised arrival and pushed before now.
abbrev pub IsScheduled : ℕ → ℕ → Entry → Type 0
IsScheduled arrival tiebreak e =
    IsLevelChange e.change × (e.at_us ≤ arrival) × (e.tiebreak ≤ tiebreak)

-- A wire that loses no edge and makes no glitches, and shows what it carries.
pub record IsClean (wire : VirtualWire) : Type 0 where
  pub lossless : wire.config.loss ≡ 0
  pub steady : wire.config.glitch_rate ≡ 0
  pub calm : wire.glitching ≡ pos 0
  pub shown : wire.visible ≡ wire.real
  pub latest : level_after wire.heap wire.real ≡ wire.last_sent
  pub scheduled : All (IsScheduled wire.last_arrival_us wire.tiebreak) wire.heap

-- An entry that is pushed last and is due last stands last.
heappush-last :
    (arrival tiebreak : ℕ) (entry : Entry) (heap : List Entry)
    → All (IsScheduled arrival tiebreak) heap
    → arrival ≤ entry.at_us
    → tiebreak < entry.tiebreak
    → heappush entry heap ≡ heap ++ entry ∷ []
unfolding heappush is_before
heappush-last arrival tiebreak entry [] h late new = refl
heappush-last arrival tiebreak entry (e ∷ heap) (here, h) late new =
    ground (arith, heappush-last arrival tiebreak entry heap h)

level_after-snoc :
    (heap : List Entry) (entry : Entry) (real : ℕ)
    → level_after (heap ++ entry ∷ []) real ≡ level_of entry.change (level_after heap real)
level_after-snoc [] entry real = refl
level_after-snoc (e ∷ heap) entry real = level_after-snoc heap entry (level_of e.change real)

pub IsScheduled-later :
    (arrival arrival' tiebreak tiebreak' : ℕ) (heap : List Entry)
    → arrival ≤ arrival'
    → tiebreak ≤ tiebreak'
    → All (IsScheduled arrival tiebreak) heap
    → All (IsScheduled arrival' tiebreak') heap
IsScheduled-later arrival arrival' tiebreak tiebreak' [] le le' h = tt
IsScheduled-later arrival arrival' tiebreak tiebreak' (e ∷ heap) le le' ((one, at, number), h) = (
  (one, omega arith, omega arith),
  IsScheduled-later arrival arrival' tiebreak tiebreak' heap le le' h,
)

pub late_arrival :
    (wire : VirtualWire) (t : ℕ) (draw : Draw) → wire.last_arrival_us ≤ arrival_us wire t draw
unfolding arrival_us
late_arrival wire t draw = ground arith

pub send_level-IsClean :
    (wire : VirtualWire) (level t : ℕ) (draw : Draw)
    → IsClean wire
    → IsClean (send_level wire level t draw)
unfolding send_level schedule_edge count_edge push
send_level-IsClean wire level t draw clean = elim (Bool-cases (level == wire.last_sent)) [
  | inl same ↦ rw same clean
  | inr other ↦
      let kept : ltb draw.chance wire.config.loss ≡ false = ground (arith, clean.lossless) in
      let arrival : ℕ = arrival_us wire t draw in
      let entry : Entry = record {
        at_us = arrival;
        tiebreak = wire.tiebreak + 1;
        change = set level;
      } in
      let late : wire.last_arrival_us ≤ arrival = late_arrival wire t draw in
      rw (other, kept)
        (record {
          lossless = clean.lossless;
          steady = clean.steady;
          calm = clean.calm;
          shown = clean.shown;
          latest =
              ap (λ (heap : List Entry). level_after heap wire.real)
                (heappush-last wire.last_arrival_us wire.tiebreak entry wire.heap clean.scheduled
                  late (omega arith))
              ∙ level_after-snoc wire.heap entry wire.real;
          scheduled =
              rw
                (heappush-last wire.last_arrival_us wire.tiebreak entry wire.heap clean.scheduled
                  late (omega arith))
                (All-append (IsScheduled arrival (wire.tiebreak + 1)) wire.heap (entry ∷ [])
                  (IsScheduled-later wire.last_arrival_us arrival wire.tiebreak (wire.tiebreak + 1)
                    wire.heap late (omega arith) clean.scheduled)
                  ((tt, omega arith, omega arith), tt));
        })
]
