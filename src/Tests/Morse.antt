-- ===== src/Tests/Morse.antt =====
-- morse_link.py at concrete inputs.
use espstation.Common.{ℕ, ◌+◌, ◌≡◌, refl, arith, List, [], ◌∷◌, some, false}
use espstation.Morse.Table.{dot, dash, code_to_char, char_to_code}
use espstation.Morse.Decoder.{symbol, letter, Decoder, tick}
use espstation.Morse.Decoder.Typing.{Press, presses}
use espstation.Morse.Decoder.Letters.{tick-presses}
use espstation.Morse.Key.{idle_key, sample_all, bounces, count_edges, changes, bounces-sample_all}

abbrev letter_a : ℕ
letter_a = 65

char_to_code-letter_a : char_to_code letter_a ≡ some (dot ∷ dash ∷ [])
unfolding char_to_code
char_to_code-letter_a = refl

code_to_char-letter_a : code_to_char (dot ∷ dash ∷ []) ≡ some letter_a
unfolding code_to_char
code_to_char-letter_a = refl

-- The start values.
abbrev new_decoder : Decoder
new_decoder = record {
  th = record { dot_dash_ms = 300; letter_ms = 700; word_ms = 1800; debounce_ms = 15 };
  level = 0;
  in_pulse = false;
  have_fall = false;
  measuring = false;
  overflowed = false;
  letter_since_word = false;
  t_rise_us = 0;
  t_fall_us = 0;
  symbol = [];
  filtered = 0;
  dots = 0;
  dashes = 0;
  letters = 0;
  unknown = 0;
  repeated = 0;
  last_pulse_ms = 0;
  last_gap_ms = 0;
}

-- The clock wraps in the second press.
abbrev short_press : Press
short_press = (4294600000, 4294720000)

abbrev long_press : Press
long_press = (4294840000, 232704)

tick-presses_example :
    ((presses new_decoder (short_press ∷ long_press ∷ [])).1
      ≡ symbol dot 120 ∷ symbol dash 360 ∷ [])
    × ((tick (presses new_decoder (short_press ∷ long_press ∷ [])).0 1000000).1
        ≡ letter letter_a 767 ∷ [])
    × ((tick (presses new_decoder (short_press ∷ long_press ∷ [])).0 1000000).0.letters ≡ 0 + 1)
    × ((tick (presses new_decoder (short_press ∷ long_press ∷ [])).0 1000000).0.symbol ≡ [])
tick-presses_example =
    tick-presses new_decoder short_press (long_press ∷ []) 1000000 letter_a refl refl refl
      (omega arith) (omega arith) code_to_char-letter_a (omega arith) (omega arith)

abbrev bouncing : List (ℕ × ℕ)
bouncing = (1, 0) ∷ (0, 3) ∷ (1, 5) ∷ (1, 30) ∷ []

bounces-sample_all_example :
    ((sample_all (idle_key 15) bouncing).0.accepted
      ≡ count_edges (sample_all (idle_key 15) bouncing).1)
    × (bounces (sample_all (idle_key 15) bouncing).0
          + count_edges (sample_all (idle_key 15) bouncing).1
        ≡ changes 0 bouncing)
bounces-sample_all_example = bounces-sample_all 15 bouncing
