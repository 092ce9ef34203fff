-- ===== src/Sim/Digital/Outputs.antt =====
-- transports/sim/node.py, `SimNode.set_gpio`: which writes of an output are carried out.
use espstation.Common.{
  ℕ, ◌≡◌, ◌⊎◌, inl, inr, refl, ◌∙◌, arith, Option, none, some, Bool, true, false, ◌||◌, ◌==◌,
  if◌then◌else◌, Bool-cases,
}
use espstation.Common.Dict.{get, get-put, number_key}
use espstation.Dio.Pins.{Rejection, output_rejection_reason}
use espstation.Sim.Wire.{Draw}
use espstation.Sim.Digital.{
  Pins, DioRuntime, gpio, Refusal, bad_level, not_drivable, refusal, level_refusal, pin_refusal,
  is_level, is_manual, drive_pin, apply_gpio, set_gpio, write_tx, pin_tx_data,
}

-- A node whose link is in manual mode.
abbrev pub manual_of : Option DioRuntime → Bool
manual_of none = false
manual_of (some dio) = dio.config.manual

is_manual-manual_of : (dio : Option DioRuntime) → is_manual dio ≡ manual_of dio
unfolding is_manual
is_manual-manual_of none = refl
is_manual-manual_of (some dio) = refl

drive_pin-gpio_out :
    (pins : Pins) (pin level now_us : ℕ) (draw : Draw) (other : ℕ)
    → get other (drive_pin pins pin level now_us draw).gpio_out
      ≡ (if pin == other then some level else get other pins.gpio_out)
unfolding drive_pin write_tx
drive_pin-gpio_out pins pin level now_us draw other = elim (Bool-cases (pin == pin_tx_data)) [
  | inl tx ↦
      let same : pin ≡ 26 = ground arith in
      rw tx (get-put other 26 level pins.gpio_out ∙ rw same refl)
  | inr no_tx ↦ rw no_tx (get-put other pin level pins.gpio_out)
]

-- What may be written.
abbrev pub MayWrite : Pins → ℕ → ℕ → Type 0
MayWrite pins pin level =
    (output_rejection_reason pin (manual_of pins.dio) ≡ none) × ((level ≡ 0) ⊎ (level ≡ 1))

level_is_valid :
    (level : ℕ)
    → (level ≡ 0) ⊎ (level ≡ 1)
    → (if level == 0 || level == 1 then none else some bad_level) ≡ none
level_is_valid level valid = ground arith

refusal-none :
    (pins : Pins) (pin level : ℕ)
    → MayWrite pins pin level
    → refusal pins (some pin) (some level) ≡ none
unfolding refusal pin_refusal level_refusal is_level
refusal-none pins pin level (free, valid) =
    rw (is_manual-manual_of pins.dio) (rw free (level_is_valid level valid))

-- A write that is allowed is carried out: the pin has the level and every other pin keeps its own,
-- and the event says so.
pub set_gpio-allowed :
    (pins : Pins) (pin level now_us : ℕ) (draw : Draw)
    → MayWrite pins pin level
    → ((set_gpio pins (some pin) (some level) now_us draw).2 ≡ true)
      × ((set_gpio pins (some pin) (some level) now_us draw).1 ≡ gpio pin level)
      × ((other : ℕ)
          → get other (set_gpio pins (some pin) (some level) now_us draw).0.gpio_out
            ≡ (if pin == other then some level else get other pins.gpio_out))
unfolding set_gpio apply_gpio
set_gpio-allowed pins pin level now_us draw may =
    rw (refusal-none pins pin level may) (refl, refl, drive_pin-gpio_out pins pin level now_us draw)

-- Why a write is refused that may not be carried out.
abbrev pub why : Option Rejection → Refusal
why none = bad_level
why (some reason) = not_drivable reason
