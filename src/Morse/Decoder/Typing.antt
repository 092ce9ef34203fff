-- ===== src/Morse/Decoder/Typing.antt =====
-- morse_link.py, `Decoder`: a letter that is keyed.
use espstation.Common.{
  ℕ, ◌+◌, ◌≤◌, ◌<◌, ◌≡◌, refl, ap, subst, ◌∙◌, arith, List, [], ◌∷◌, ◌++◌, append_assoc,
  length-append, map, some, true, false, ltb, leb, if◌then◌else◌, length, All,
}
use espstation.Morse.Clock.{elapsed_ms}
use espstation.Morse.Table.{Symbol, dot, dash, Code, code_to_char}
use espstation.Morse.Decoder.{
  Thresholds, MorseEvent, symbol, letter, Decoder, rise, fall, end_pulse, add_symbol, add_count,
  edge, close_as, close_letter, tick_letter, tick_word, tick_done, tick,
}

-- One press of the key: when the line rises and when it falls.
abbrev pub Press : Type 0
Press = ℕ × ℕ

unfoldable pub press : Decoder → Press → Decoder × List MorseEvent
press d (t_rise, t_fall) =
    let (d, up) = edge d 1 t_rise in let (d, down) = edge d 0 t_fall in (d, up ++ down)

unfoldable pub presses : Decoder → List Press → Decoder × List MorseEvent
presses d [] = (d, [])
presses d (p ∷ ps) =
    let (d, events) = press d p in let (d, later) = presses d ps in (d, events ++ later)

abbrev pub dur_ms : Press → ℕ
dur_ms (t_rise, t_fall) = elapsed_ms t_fall t_rise

-- What a press means by its length.
abbrev pub symbol_of : Thresholds → Press → Symbol
symbol_of th p = if ltb (dur_ms p) th.dot_dash_ms then dot else dash

abbrev pub IsPress : Thresholds → Press → Type 0
IsPress th p = th.debounce_ms ≤ dur_ms p

-- A decoder that holds this code, the last symbol having ended at `t_fall`.
pub record Typed (before d : Decoder) (t_fall : ℕ) (code : Code) : Type 0 where
  pub same_th : d.th ≡ before.th
  pub low : d.level ≡ 0
  pub kept : d.overflowed ≡ false
  pub holds : d.symbol ≡ code
  pub measures : d.measuring ≡ true
  pub fell : d.t_fall_us ≡ t_fall
  pub same_word : d.letter_since_word ≡ before.letter_since_word
  pub same_letters : d.letters ≡ before.letters

add_symbol-Typed :
    (s : Symbol) (d : Decoder) (dur t : ℕ)
    → d.level ≡ 0
    → d.overflowed ≡ false
    → length d.symbol < 8
    → Typed d (add_symbol s d dur t).0 t (d.symbol ++ s ∷ [])
      × ((add_symbol s d dur t).1 ≡ symbol s dur ∷ [])
unfolding add_symbol add_count
add_symbol-Typed dot d dur t low kept room =
    let fits : ltb (length d.symbol) 8 ≡ true = ground arith in
    (
      record {
        same_th = refl;
        low = low;
        kept = rw fits kept;
        holds = rw fits refl;
        measures = refl;
        fell = refl;
        same_word = refl;
        same_letters = refl;
      },
      refl,
    )
add_symbol-Typed dash d dur t low kept room =
    let fits : ltb (length d.symbol) 8 ≡ true = ground arith in
    (
      record {
        same_th = refl;
        low = low;
        kept = rw fits kept;
        holds = rw fits refl;
        measures = refl;
        fell = refl;
        same_word = refl;
        same_letters = refl;
      },
      refl,
    )

-- The decoder at the end of a pulse, before it is taken for a symbol.
abbrev pulsed : Decoder → Press → Decoder
pulsed d p = record d {
  level = 0;
  last_gap_ms = if d.have_fall then elapsed_ms p.0 d.t_fall_us else d.last_gap_ms;
  t_rise_us = p.0;
  in_pulse = false;
  last_pulse_ms = dur_ms p;
}

press-add_symbol :
    (d : Decoder) (p : Press)
    → d.level ≡ 0
    → IsPress d.th p
    → press d p ≡ add_symbol (symbol_of d.th p) (pulsed d p) (dur_ms p) p.1
unfolding press edge rise fall end_pulse
press-add_symbol d p low long =
    let enough : ltb (dur_ms p) d.th.debounce_ms ≡ false = ground arith in rw low (rw enough refl)

press-Typed :
    (d : Decoder) (p : Press)
    → d.level ≡ 0
    → d.overflowed ≡ false
    → length d.symbol < 8
    → IsPress d.th p
    → Typed d (press d p).0 p.1 (d.symbol ++ symbol_of d.th p ∷ [])
      × ((press d p).1 ≡ symbol (symbol_of d.th p) (dur_ms p) ∷ [])
press-Typed d p low kept room long =
    let (typed, events) =
      add_symbol-Typed (symbol_of d.th p) (pulsed d p) (dur_ms p) p.1 refl kept room in
    rw (press-add_symbol d p low long) (
      record {
        same_th = typed.same_th;
        low = typed.low;
        kept = typed.kept;
        holds = typed.holds;
        measures = typed.measures;
        fell = typed.fell;
        same_word = typed.same_word;
        same_letters = typed.same_letters;
      },
      events,
    )

abbrev pub code_of : Thresholds → List Press → Code
code_of th ps = map (symbol_of th) ps

abbrev pub symbol_events : Thresholds → List Press → List MorseEvent
symbol_events th ps = map (λ p. symbol (symbol_of th p) (dur_ms p)) ps

abbrev pub last_fall : Press → List Press → ℕ
last_fall p [] = p.1
last_fall p (q ∷ ps) = last_fall q ps

press_at :
    (th : Thresholds) (d : Decoder) (p : Press)
    → d.th ≡ th
    → d.level ≡ 0
    → d.overflowed ≡ false
    → length d.symbol < 8
    → IsPress th p
    → Typed d (press d p).0 p.1 (d.symbol ++ symbol_of th p ∷ [])
      × ((press d p).1 ≡ symbol (symbol_of th p) (dur_ms p) ∷ [])
press_at th d p same low kept room =
    subst
      (λ t.
        IsPress t p
        → Typed d (press d p).0 p.1 (d.symbol ++ symbol_of t p ∷ [])
          × ((press d p).1 ≡ symbol (symbol_of t p) (dur_ms p) ∷ []))
      same (press-Typed d p low kept room)

pub presses-Typed :
    (th : Thresholds) (ps : List Press) (p : Press) (d : Decoder)
    → d.th ≡ th
    → d.level ≡ 0
    → d.overflowed ≡ false
    → length d.symbol + length (p ∷ ps) ≤ 8
    → All (IsPress th) (p ∷ ps)
    → Typed d (presses d (p ∷ ps)).0 (last_fall p ps) (d.symbol ++ code_of th (p ∷ ps))
      × ((presses d (p ∷ ps)).1 ≡ symbol_events th (p ∷ ps))
unfolding presses
presses-Typed th [] p d same low kept room (long, _) =
    let (typed, events) = press_at th d p same low kept (omega (arith, room)) long in
    (typed, rw events refl)
presses-Typed th (q ∷ ps) p d same low kept room (long, more) =
    let (typed, events) = press_at th d p same low kept (omega (arith, room)) long in
    let s : Symbol = symbol_of th p in
    let size : length (press d p).0.symbol ≡ length d.symbol + 1 =
      ap length typed.holds ∙ length-append d.symbol (s ∷ []) in
    let (last, later) =
      presses-Typed th ps q (press d p).0 (typed.same_th ∙ same) typed.low typed.kept
        (omega (arith, room, size)) more in
    (
      record {
        same_th = last.same_th ∙ typed.same_th;
        low = last.low;
        kept = last.kept;
        holds =
            last.holds
            ∙ ap (λ c. c ++ code_of th (q ∷ ps)) typed.holds
            ∙ append_assoc d.symbol (s ∷ []) (code_of th (q ∷ ps));
        measures = last.measures;
        fell = last.fell;
        same_word = last.same_word ∙ typed.same_word;
        same_letters = last.same_letters ∙ typed.same_letters;
      },
      rw (events, later) refl,
    )

-- A pause behind a code of the table: the letter's event, and the decoder afterwards.
pub tick-letter :
    (d : Decoder) (now char : ℕ) (s : Symbol) (code : Code)
    → d.symbol ≡ s ∷ code
    → d.level ≡ 0
    → d.measuring ≡ true
    → d.overflowed ≡ false
    → code_to_char (s ∷ code) ≡ some char
    → d.th.letter_ms ≤ elapsed_ms now d.t_fall_us
    → elapsed_ms now d.t_fall_us < d.th.word_ms
    → tick d now ≡ (
      record d {
        symbol = [];
        overflowed = false;
        letter_since_word = true;
        letters = d.letters + 1;
      },
      letter char (elapsed_ms now d.t_fall_us) ∷ [],
    )
unfolding tick tick_letter tick_word tick_done close_letter close_as
tick-letter d now char s code holds low measures kept known paused short =
    let letter_due : leb d.th.letter_ms (elapsed_ms now d.t_fall_us) ≡ true = ground arith in
    let no_word : leb d.th.word_ms (elapsed_ms now d.t_fall_us) ≡ false = ground arith in
    rw measures (rw low (rw holds (rw letter_due (rw known (rw kept (rw no_word refl))))))
