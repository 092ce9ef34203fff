-- ===== src/Dio/Pins.antt =====
-- dio_link.py: which outputs of a node may be driven.
use espstation.Common.{
  ℕ, ◌≡◌, ◌↔◌, ◌⊎◌, arith, List, [], ◌∷◌, Option, none, some, Bool, false, not, ◌&&◌, ◌||◌, ◌==◌,
  if◌then◌else◌,
}

abbrev pin_tx_data : ℕ
pin_tx_data = 26

abbrev pin_rx_data : ℕ
pin_rx_data = 25

abbrev pin_tx_clk : ℕ
pin_tx_clk = 27

abbrev pin_rx_clk : ℕ
pin_rx_clk = 14

abbrev link_input_pins : List ℕ
link_input_pins = pin_rx_clk ∷ pin_rx_data ∷ []

abbrev link_output_pins : List ℕ
link_output_pins = pin_tx_data ∷ pin_tx_clk ∷ []

abbrev allowed_outputs : List ℕ
allowed_outputs = 4 ∷ 13 ∷ 14 ∷ 16 ∷ 17 ∷ 18 ∷ 19 ∷ 21 ∷ 22 ∷ 23 ∷ 25 ∷ 26 ∷ 27 ∷ 32 ∷ 33 ∷ []

-- `in` of a set of numbers.
abbrev contains : List ℕ → ℕ → Bool
contains [] n = false
contains (x ∷ xs) n = n == x || contains xs n

pub is_allowed_output : ℕ → Bool
is_allowed_output gpio = contains allowed_outputs gpio

-- "pin_not_allowed" and "owned_by_link".
pub data Rejection : Type 0 where
  pin_not_allowed owned_by_link : Rejection

unfoldable pub output_rejection_reason : ℕ → Bool → Option Rejection
unfolding is_allowed_output
output_rejection_reason gpio manual =
    if not (is_allowed_output gpio)
    then some pin_not_allowed
    else if contains link_input_pins gpio || (contains link_output_pins gpio && not manual)
    then some owned_by_link
    else none

-- The two inputs of the link are never driven, and its two outputs in manual mode only.
pub output_rejection_reason-owned :
    (gpio : ℕ) (manual : Bool)
    → (output_rejection_reason gpio manual ≡ some owned_by_link)
      ↔ ((gpio ≡ 14) ⊎ ((gpio ≡ 25) ⊎ (((gpio ≡ 26) ⊎ (gpio ≡ 27)) × (manual ≡ false))))
unfolding output_rejection_reason
output_rejection_reason-owned gpio manual = ground arith
