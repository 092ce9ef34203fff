-- ===== src/Morse/Decoder.antt =====
-- morse_link.py, `Decoder`: pulses and silences become symbols, letters and words.
pub mod Typing
pub mod Letters
use espstation.Common.{
  ℕ, ◌+◌, ◌≤◌, ◌<◌, List, [], ◌∷◌, ◌++◌, Option, none, some, Bool, true, false, not, ◌&&◌, ◌||◌,
  ◌==◌, ltb, leb, if◌then◌else◌, length,
}
use espstation.Morse.Clock.{elapsed_ms}
use espstation.Morse.Table.{Symbol, dot, dash, Code, code_to_char}

abbrev pub max_symbol : ℕ
max_symbol = 8

pub record Thresholds : Type 0 where
  pub dot_dash_ms : ℕ
  pub letter_ms : ℕ
  pub word_ms : ℕ
  pub debounce_ms : ℕ

-- `unknown` has the "+" that marks an overflowed code as a Boolean.
pub data MorseEvent : Type 0 where
  symbol : Symbol → ℕ → MorseEvent
  letter : ℕ → ℕ → MorseEvent
  word : ℕ → MorseEvent
  unknown : Code → Bool → ℕ → MorseEvent
  filtered : ℕ → MorseEvent

pub record Decoder : Type 0 where
  pub th : Thresholds
  pub level : ℕ
  pub in_pulse : Bool
  pub have_fall : Bool
  pub measuring : Bool
  pub overflowed : Bool
  pub letter_since_word : Bool
  pub t_rise_us : ℕ
  pub t_fall_us : ℕ
  pub symbol : Code
  pub filtered : ℕ
  pub dots : ℕ
  pub dashes : ℕ
  pub letters : ℕ
  pub unknown : ℕ
  pub repeated : ℕ
  pub last_pulse_ms : ℕ
  pub last_gap_ms : ℕ

pub rise : Decoder → ℕ → Decoder × List MorseEvent
rise d t_us = (
  record d {
    last_gap_ms = if d.have_fall then elapsed_ms t_us d.t_fall_us else d.last_gap_ms;
    t_rise_us = t_us;
    in_pulse = true;
  },
  [],
)

pub add_count : Symbol → Decoder → Decoder
add_count dot d = record d { dots = d.dots + 1 }
add_count dash d = record d { dashes = d.dashes + 1 }

-- A pulse that is long enough to be a symbol.
pub add_symbol : Symbol → Decoder → ℕ → ℕ → Decoder × List MorseEvent
add_symbol s d dur_ms t_us =
    let d = add_count s d in
    let room = ltb (length d.symbol) max_symbol in
    (
      record d {
        symbol = if room then d.symbol ++ s ∷ [] else d.symbol;
        overflowed = if room then d.overflowed else true;
        t_fall_us = t_us;
        have_fall = true;
        measuring = true;
      },
      symbol s dur_ms ∷ [],
    )

pub end_pulse : Decoder → ℕ → ℕ → Decoder × List MorseEvent
end_pulse d dur_ms t_us =
    let d = record d { in_pulse = false; last_pulse_ms = dur_ms } in
    if ltb dur_ms d.th.debounce_ms
    then (record d { filtered = d.filtered + 1 }, filtered dur_ms ∷ [])
    else add_symbol (if ltb dur_ms d.th.dot_dash_ms then dot else dash) d dur_ms t_us

pub fall : Decoder → ℕ → Decoder × List MorseEvent
fall d t_us = if not d.in_pulse then (d, []) else end_pulse d (elapsed_ms t_us d.t_rise_us) t_us

unfoldable pub edge : Decoder → ℕ → ℕ → Decoder × List MorseEvent
unfolding rise fall end_pulse add_symbol add_count
edge d level t_us =
    let level = if level == 0 then 0 else 1 in
    if level == d.level
    then (record d { repeated = d.repeated + 1 }, [])
    else if level == 1
    then rise (record d { level = level }) t_us
    else fall (record d { level = level }) t_us

abbrev pub has_symbol : Code → Bool
has_symbol [] = false
has_symbol (s ∷ ss) = true

-- The counter and the event of a code that is closed, `char` being what the table says.
pub close_as : Option ℕ → Code → Bool → Decoder → ℕ → Decoder × MorseEvent
close_as (some char) code false d gap_ms =
    (record d { letters = d.letters + 1 }, letter char gap_ms)
close_as (some char) code true d gap_ms =
    (record d { unknown = d.unknown + 1 }, unknown code true gap_ms)
close_as none code overflowed d gap_ms =
    (record d { unknown = d.unknown + 1 }, unknown code overflowed gap_ms)

unfoldable pub close_letter : Decoder → ℕ → Decoder × MorseEvent
unfolding close_as
close_letter d gap_ms =
    close_as (code_to_char d.symbol) d.symbol d.overflowed
      (record d { symbol = []; overflowed = false; letter_since_word = true }) gap_ms

pub tick_letter : Decoder → ℕ → Decoder × List MorseEvent
tick_letter d gap_ms =
    let (closed, event) = close_letter d gap_ms in
    if has_symbol d.symbol && leb d.th.letter_ms gap_ms then (closed, event ∷ []) else (d, [])

pub tick_word : Decoder → ℕ → Decoder × List MorseEvent
tick_word d gap_ms =
    if d.letter_since_word && leb d.th.word_ms gap_ms
    then (record d { letter_since_word = false }, word gap_ms ∷ [])
    else (d, [])

-- Nothing left to wait for: the decoder stops measuring.
pub tick_done : Decoder → Decoder
tick_done d =
    if not (has_symbol d.symbol) && not d.letter_since_word
    then record d { measuring = false }
    else d

unfoldable pub tick : Decoder → ℕ → Decoder × List MorseEvent
unfolding tick_letter tick_word tick_done
tick d now_us =
    let gap_ms = elapsed_ms now_us d.t_fall_us in
    let (d1, letters) = tick_letter d gap_ms in
    let (d2, words) = tick_word d1 gap_ms in
    if not d.measuring || not (d.level == 0) then (d, []) else (tick_done d2, letters ++ words)
