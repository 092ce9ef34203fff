-- ===== src/Sim/Wire/Levels.antt =====
-- transports/sim/network.py, `send_level` and `poll`: what the receiver sees of the sender's level.
use espstation.Common.{
  ℕ, zero, suc, ◌-◌, ◌≤◌, ◌≡◌, ◌≢◌, refl, arith, List, [], ◌∷◌, ◌++◌, Option, subst, none, some,
  ◌==◌, leb, Bool-cases, inl, inr, All,
}
use espstation.Sim.Wire.{
  VirtualWire, Entry, Change, set, glitch_on, glitch_off, Noise, push, poll, settle, show,
  apply_change, seen_level, inject_glitches, glitches_since, glitch_count, add_glitches,
}

-- Changes of level by turns: each edge's level is another than the one before it, and the last is
-- `after`.
abbrev pub IsAlternating : ℕ → List (ℕ × ℕ) → ℕ → Type 0
IsAlternating before [] after = before ≡ after
IsAlternating before ((t, level) ∷ edges) after = (level ≢ before) × IsAlternating level edges after

apply_change-visible :
    (change : Change) (wire : VirtualWire) → (apply_change change wire).visible ≡ wire.visible
unfolding apply_change
apply_change-visible (set level) wire = refl
apply_change-visible glitch_on wire = refl
apply_change-visible glitch_off wire = refl

-- The edge that `show` adds before edges that alternate from what it leaves visible.
show-IsAlternating :
    (wire : VirtualWire) (t_us now after : ℕ) (edges : List (ℕ × ℕ))
    → t_us ≤ now
    → IsAlternating (show wire t_us).0.visible edges after
    → All (λ edge. edge.0 ≤ now) edges
    → IsAlternating wire.visible ((show wire t_us).1 ++ edges) after
      × All (λ edge. edge.0 ≤ now) ((show wire t_us).1 ++ edges)
unfolding show
show-IsAlternating wire t_us now after edges due =
    elim (Bool-cases (seen_level wire == wire.visible)) [
      | inl same ↦ rw same (λ turns times. (turns, times))
      | inr other ↦ rw other (λ turns times. ((ground arith, turns), (due, times)))
    ]

settle-IsAlternating :
    (heap : List Entry) (wire : VirtualWire) (now : ℕ)
    → IsAlternating wire.visible (settle heap wire now).1 (settle heap wire now).0.visible
      × All (λ edge. edge.0 ≤ now) (settle heap wire now).1
unfolding settle
settle-IsAlternating [] wire now = (refl, tt)
settle-IsAlternating (e ∷ heap) wire now = elim (Bool-cases (leb e.at_us now)) [
  | inl due ↦
      let changed : VirtualWire = apply_change e.change wire in
      let (turns, times) = settle-IsAlternating heap (show changed e.at_us).0 now in
      rw due (
        subst
          (λ before.
            IsAlternating before
              ((show changed e.at_us).1 ++ (settle heap (show changed e.at_us).0 now).1)
              (settle heap (show changed e.at_us).0 now).0.visible
            × All (λ edge. edge.0 ≤ now)
                ((show changed e.at_us).1 ++ (settle heap (show changed e.at_us).0 now).1))
          (apply_change-visible e.change wire)
          (show-IsAlternating changed e.at_us now _ _ (ground arith) turns times))
  | inr early ↦ rw early (refl, tt)
]

add_glitches-visible :
    (n : ℕ) (at_us : ℕ → ℕ) (wire : VirtualWire)
    → (add_glitches n at_us wire).visible ≡ wire.visible
unfolding add_glitches push
add_glitches-visible zero at_us wire = refl
add_glitches-visible (suc n) at_us wire = add_glitches-visible n (λ k. at_us (suc k)) _

glitches_since-visible :
    (last : Option ℕ) (wire : VirtualWire) (now : ℕ) (noise : Noise)
    → (glitches_since last wire now noise).visible ≡ wire.visible
unfolding glitches_since
glitches_since-visible none wire now noise = refl
glitches_since-visible (some last) wire now noise = ground (
  arith,
  add_glitches-visible (glitch_count wire.config (now - last) noise.chance) noise.at_us wire,
)

-- The edges that a poll reports, on any wire and with any glitches: each is at most as late as the
-- poll, each changes the level that was visible before it, and the level after the last one is what
-- the wire then shows.
pub poll-IsAlternating :
    (wire : VirtualWire) (now : ℕ) (noise : Noise)
    → IsAlternating wire.visible (poll wire now noise).1 (poll wire now noise).0.visible
      × All (λ edge. edge.0 ≤ now) (poll wire now noise).1
unfolding poll inject_glitches
poll-IsAlternating wire now noise =
    let noisy : VirtualWire = glitches_since wire.last_poll_us wire now noise in
    subst
      (λ before.
        IsAlternating before (settle noisy.heap noisy now).1 (settle noisy.heap noisy now).0.visible
        × All (λ edge. edge.0 ≤ now) (settle noisy.heap noisy now).1)
      (glitches_since-visible wire.last_poll_us wire now noise)
      (settle-IsAlternating noisy.heap noisy now)
