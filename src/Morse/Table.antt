-- ===== src/Morse/Table.antt =====
-- morse_link.py: the table of codes. Characters are their ASCII numbers.
use espstation.Common.{
  ℕ, ◌≡◌, ◌↔◌, refl, sym, ap, ap₂, ◌∙◌, arith, Bool-cases, inl, inr, List, [], ◌∷◌, Option, none,
  some, Bool, true, false, ◌&&◌, ◌==◌, if◌then◌else◌,
}

pub data Symbol : Type 0 where
  dot dash : Symbol

abbrev pub Code : Type 0
Code = List Symbol

pub same_symbol : Symbol → Symbol → Bool
same_symbol dot dot = true
same_symbol dash dash = true
same_symbol _ _ = false

pub same_code : Code → Code → Bool
same_code [] [] = true
same_code (s ∷ ss) (t ∷ ts) = same_symbol s t && same_code ss ts
same_code _ _ = false

pub codes : List (Code × ℕ)
codes =
    (dot ∷ dash ∷ [], 65)
    ∷ (dash ∷ dot ∷ dot ∷ dot ∷ [], 66)
    ∷ (dash ∷ dot ∷ dash ∷ dot ∷ [], 67)
    ∷ (dash ∷ dot ∷ dot ∷ [], 68)
    ∷ (dot ∷ [], 69)
    ∷ (dot ∷ dot ∷ dash ∷ dot ∷ [], 70)
    ∷ (dash ∷ dash ∷ dot ∷ [], 71)
    ∷ (dot ∷ dot ∷ dot ∷ dot ∷ [], 72)
    ∷ (dot ∷ dot ∷ [], 73)
    ∷ (dot ∷ dash ∷ dash ∷ dash ∷ [], 74)
    ∷ (dash ∷ dot ∷ dash ∷ [], 75)
    ∷ (dot ∷ dash ∷ dot ∷ dot ∷ [], 76)
    ∷ (dash ∷ dash ∷ [], 77)
    ∷ (dash ∷ dot ∷ [], 78)
    ∷ (dash ∷ dash ∷ dash ∷ [], 79)
    ∷ (dot ∷ dash ∷ dash ∷ dot ∷ [], 80)
    ∷ (dash ∷ dash ∷ dot ∷ dash ∷ [], 81)
    ∷ (dot ∷ dash ∷ dot ∷ [], 82)
    ∷ (dot ∷ dot ∷ dot ∷ [], 83)
    ∷ (dash ∷ [], 84)
    ∷ (dot ∷ dot ∷ dash ∷ [], 85)
    ∷ (dot ∷ dot ∷ dot ∷ dash ∷ [], 86)
    ∷ (dot ∷ dash ∷ dash ∷ [], 87)
    ∷ (dash ∷ dot ∷ dot ∷ dash ∷ [], 88)
    ∷ (dash ∷ dot ∷ dash ∷ dash ∷ [], 89)
    ∷ (dash ∷ dash ∷ dot ∷ dot ∷ [], 90)
    ∷ (dash ∷ dash ∷ dash ∷ dash ∷ dash ∷ [], 48)
    ∷ (dot ∷ dash ∷ dash ∷ dash ∷ dash ∷ [], 49)
    ∷ (dot ∷ dot ∷ dash ∷ dash ∷ dash ∷ [], 50)
    ∷ (dot ∷ dot ∷ dot ∷ dash ∷ dash ∷ [], 51)
    ∷ (dot ∷ dot ∷ dot ∷ dot ∷ dash ∷ [], 52)
    ∷ (dot ∷ dot ∷ dot ∷ dot ∷ dot ∷ [], 53)
    ∷ (dash ∷ dot ∷ dot ∷ dot ∷ dot ∷ [], 54)
    ∷ (dash ∷ dash ∷ dot ∷ dot ∷ dot ∷ [], 55)
    ∷ (dash ∷ dash ∷ dash ∷ dot ∷ dot ∷ [], 56)
    ∷ (dash ∷ dash ∷ dash ∷ dash ∷ dot ∷ [], 57)
    ∷ []

-- `dict.get` of a code, and of a character in the reversed table.
pub find_char : List (Code × ℕ) → Code → Option ℕ
find_char [] code = none
find_char ((k, char) ∷ rest) code = if same_code k code then some char else find_char rest code

pub find_code : List (Code × ℕ) → ℕ → Option Code
find_code [] char = none
find_code ((k, c) ∷ rest) char = if c == char then some k else find_code rest char

unfoldable pub code_to_char : Code → Option ℕ
unfolding codes find_char same_code same_symbol
code_to_char code = find_char codes code

unfoldable pub char_to_code : ℕ → Option Code
unfolding codes find_code
char_to_code char = find_code codes char

same_symbol_sound : (s t : Symbol) → same_symbol s t ≡ true → s ≡ t
unfolding same_symbol
same_symbol_sound dot dot e = refl
same_symbol_sound dot dash e = cc
same_symbol_sound dash dot e = cc
same_symbol_sound dash dash e = refl

same_code_sound : (k l : Code) → same_code k l ≡ true → k ≡ l
unfolding same_code
same_code_sound [] [] e = refl
same_code_sound [] (t ∷ ts) e = cc
same_code_sound (s ∷ ss) [] e = cc
same_code_sound (s ∷ ss) (t ∷ ts) e =
    ap₂ ◌∷◌ (same_symbol_sound s t (ground arith)) (same_code_sound ss ts (ground arith))

-- Rows whose code is found to have their own character, and the other way round.
abbrev has_char : ℕ → Option ℕ → Bool
has_char char none = false
has_char char (some c) = c == char

abbrev has_code : Code → Option Code → Bool
has_code code none = false
has_code code (some k) = same_code k code

rows_agree : List (Code × ℕ) → Bool
rows_agree [] = true
rows_agree ((k, char) ∷ rows) =
    has_char char (code_to_char k) && (has_code k (char_to_code char) && rows_agree rows)

codes_agree : rows_agree codes ≡ true
unfolding rows_agree codes code_to_char char_to_code same_code same_symbol
codes_agree = refl

has_char-some : (char : ℕ) (o : Option ℕ) → has_char char o ≡ true → o ≡ some char
has_char-some char o e = ground arith

has_code-some : (code : Code) (o : Option Code) → has_code code o ≡ true → o ≡ some code
has_code-some code none e = cc
has_code-some code (some k) e = ap some (same_code_sound k code e)

find_code-agree :
    (rows : List (Code × ℕ)) (char : ℕ) (code : Code)
    → rows_agree rows ≡ true
    → find_code rows char ≡ some code
    → code_to_char code ≡ some char
unfolding rows_agree find_code
find_code-agree [] char code h e = cc
find_code-agree ((k, c) ∷ rows) char code h e = elim (Bool-cases (c == char)) [
  | inl here ↦
      let same : k ≡ code = cc (rw here at e) in
      let is : c ≡ char = ground arith in
      ap code_to_char (sym same) ∙ has_char-some c (code_to_char k) (ground arith) ∙ ap some is
  | inr other ↦ find_code-agree rows char code (ground arith) (rw other at e)
]

find_char-agree :
    (rows : List (Code × ℕ)) (code : Code) (char : ℕ)
    → rows_agree rows ≡ true
    → find_char rows code ≡ some char
    → char_to_code char ≡ some code
unfolding rows_agree find_char
find_char-agree [] code char h e = cc
find_char-agree ((k, c) ∷ rows) code char h e = elim (Bool-cases (same_code k code)) [
  | inl here ↦
      let is : c ≡ char = cc (rw here at e) in
      ap char_to_code (sym is)
      ∙ has_code-some k (char_to_code c) (ground arith)
      ∙ ap some (same_code_sound k code here)
  | inr other ↦ find_char-agree rows code char (ground arith) (rw other at e)
]

-- The table and the reversed table are inverse: a character has a code exactly when that code stands
-- for it.
pub char_to_code_iff :
    (char : ℕ) (code : Code) → (char_to_code char ≡ some code) ↔ (code_to_char code ≡ some char)
unfolding char_to_code code_to_char
char_to_code_iff char code =
    (find_code-agree codes char code codes_agree, find_char-agree codes code char codes_agree)
