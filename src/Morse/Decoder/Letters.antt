-- ===== src/Morse/Decoder/Letters.antt =====
-- morse_link.py, `Decoder`: from presses of the key to a letter.
use espstation.Common.{
  ℕ, ◌+◌, ◌≤◌, ◌<◌, ◌≡◌, refl, ap, ◌∙◌, arith, List, [], ◌∷◌, ◌++◌, some, false, length, All,
}
use espstation.Morse.Clock.{elapsed_ms}
use espstation.Morse.Table.{Code, code_to_char}
use espstation.Morse.Decoder.{Thresholds, MorseEvent, letter, Decoder, tick}
use espstation.Morse.Decoder.Typing.{
  Press, presses, IsPress, code_of, symbol_events, symbol_of, last_fall, presses-Typed, tick-letter,
}

-- A decoder that holds no code and whose line is low is keyed one to eight presses, none shorter than
-- the debounce time, whose lengths spell the code of a character, and is then asked at a time when
-- the pause is long enough for a letter and too short for a word: it reports each press as its symbol,
-- in order, then exactly the letter, counts one letter more, and holds no code again.
pub tick-presses :
    (d : Decoder) (p : Press) (ps : List Press) (now char : ℕ)
    → d.level ≡ 0
    → d.overflowed ≡ false
    → d.symbol ≡ []
    → length (p ∷ ps) ≤ 8
    → All (IsPress d.th) (p ∷ ps)
    → code_to_char (code_of d.th (p ∷ ps)) ≡ some char
    → d.th.letter_ms ≤ elapsed_ms now (last_fall p ps)
    → elapsed_ms now (last_fall p ps) < d.th.word_ms
    → let keyed : Decoder × List MorseEvent = presses d (p ∷ ps) in
      let closed : Decoder × List MorseEvent = tick keyed.0 now in
      (keyed.1 ≡ symbol_events d.th (p ∷ ps))
      × (closed.1 ≡ letter char (elapsed_ms now (last_fall p ps)) ∷ [])
      × (closed.0.letters ≡ d.letters + 1)
      × (closed.0.symbol ≡ [])
tick-presses d p ps now char low kept empty room long known paused short =
    let (typed, events) =
      presses-Typed d.th ps p d refl low kept (omega (arith, room, ap length empty)) long in
    let code : Code = code_of d.th (p ∷ ps) in
    let d' : Decoder = (presses d (p ∷ ps)).0 in
    let holds : d'.symbol ≡ code = typed.holds ∙ ap (λ c. c ++ code) empty in
    let gap : elapsed_ms now d'.t_fall_us ≡ elapsed_ms now (last_fall p ps) =
      ap (elapsed_ms now) typed.fell in
    let same_letter : d'.th.letter_ms ≡ d.th.letter_ms =
      ap (λ (t : Thresholds). t.letter_ms) typed.same_th in
    let same_word : d'.th.word_ms ≡ d.th.word_ms =
      ap (λ (t : Thresholds). t.word_ms) typed.same_th in
    let closed =
      tick-letter d' now char (symbol_of d.th p) (code_of d.th ps) holds typed.low typed.measures
        typed.kept known (omega (arith, gap, same_letter, paused))
        (omega (arith, gap, same_word, short)) in
    (
      events,
      ap (λ (r : Decoder × List MorseEvent). r.1) closed ∙ ap (λ g. letter char g ∷ []) gap,
      ap (λ (r : Decoder × List MorseEvent). r.0.letters) closed
          ∙ ap (λ n. n + 1) typed.same_letters,
      ap (λ (r : Decoder × List MorseEvent). r.0.symbol) closed,
    )
