-- ===== src/Protocol/Cobs/Blocks.antt =====
-- One round of cobs.py's two loops: where a block ends, and how the decoder takes it.
use espstation.Common.{
  ap, sym, ◌∙◌, ℕ, zero, suc, ◌+◌, ◌-◌, ◌≤◌, ◌<◌, ◌≡◌, ◌≢◌, inl, inr, refl, ap, arith, [], ◌∷◌,
  ◌++◌, ◌&&◌, false, ◌==◌, ltb, if◌then◌else◌, Bool-cases, Bytes, length, take, drop, All,
  take-length-append, drop-length-append, length-append,
}
use espstation.Protocol.Cobs.{block_end, block_size, nonempty, decode_loop}
use espstation.Protocol.Cobs.Delivered.{IsNonZero}

block_end-le : (xs : Bytes) → block_end xs ≤ length xs
unfolding block_end
block_end-le [] = omega arith
block_end-le (x ∷ xs) = ground (arith, block_end-le xs)

take-block_end : (n : ℕ) (xs : Bytes) → n ≤ block_end xs → All IsNonZero (take n xs)
unfolding block_end
take-block_end zero xs h = tt
take-block_end (suc n) [] h = absurd (omega arith)
take-block_end (suc n) (x ∷ xs) h = elim (Bool-cases (x == 0)) [
  | inl e ↦ absurd (ground arith)
  | inr e ↦ (ground arith, take-block_end n xs (ground arith))
]

-- Where a block of the length `n` has ended, with `rest` behind it.
pub data Ending (n : ℕ) : Bytes → Type 0 where
  at_end : {rest : Bytes} → rest ≡ [] → Ending n rest
  at_zero : {rest : Bytes} (xs : Bytes) → rest ≡ 0 ∷ xs → Ending n rest
  at_full : {rest : Bytes} (x : ℕ) (xs : Bytes) → rest ≡ x ∷ xs → x ≢ 0 → n ≡ 254 → Ending n rest

drop-block_end : (k : ℕ) (xs : Bytes) → Ending k (drop (block_end xs) xs)
unfolding block_end
drop-block_end k [] = at_end refl
drop-block_end k (x ∷ xs) = elim (Bool-cases (x == 0)) [
  | inl e ↦ let z : x ≡ 0 = ground arith in rw e (at_zero xs (ap (λ y. y ∷ xs) z))
  | inr e ↦ rw e (drop-block_end k xs)
]

drop-inside : (n : ℕ) (xs : Bytes) → n < block_end xs → n ≡ 254 → Ending 254 (drop n xs)
unfolding block_end
drop-inside n xs h e = go n xs h
  where
    go : (m : ℕ) (ys : Bytes) → m < block_end ys → Ending 254 (drop m ys)
    go zero [] p = absurd (omega arith)
    go (suc m) [] p = absurd (omega arith)
    go zero (y ∷ ys) p = at_full y ys refl (ground arith) refl
    go (suc m) (y ∷ ys) p = go m ys (ground arith)

-- The next `n` bytes of the data make a block.
pub record Block (n : ℕ) (rest : Bytes) : Type 0 where
  pub fits : n ≤ 254
  pub within : n ≤ length rest
  pub filled : All IsNonZero (take n rest)
  pub ending : Ending n (drop n rest)

pub block_size-Block : (rest : Bytes) → Block (block_size rest) rest
unfolding block_size
block_size-Block rest = elim (Bool-cases (ltb 254 (block_end rest))) [
  | inl e ↦ rw e (record {
    fits = omega arith;
    within = ground (arith, block_end-le rest);
    filled = take-block_end 254 rest (ground arith);
    ending = drop-inside 254 rest (ground arith) refl;
  })
  | inr e ↦ rw e (record {
    fits = ground arith;
    within = block_end-le rest;
    filled = take-block_end (block_end rest) rest (omega arith);
    ending = drop-block_end (block_end rest) rest;
  })
]

-- What the decoder has written behind a block of the length `n`, with `more` still to read.
abbrev pub padded : ℕ → Bytes → Bytes → Bytes
padded n out more = if ltb n 254 && nonempty more then out ++ 0 ∷ [] else out

decode_loop-run :
    (g : ℕ) (run more out : Bytes)
    → length run ≤ 254
    → decode_loop (suc g) (suc (length run) ∷ (run ++ more)) out
      ≡ decode_loop g more (padded (length run) (out ++ run) more)
unfolding decode_loop
decode_loop-run g run more out fits =
    let same : suc (length run) - 1 ≡ length run = omega arith in
    let code : (suc (length run) == 0) ≡ false = ground arith in
    let fit : ltb (suc (length (run ++ more))) (suc (length run)) ≡ false =
      ground (arith, length-append run more) in
    let size : ltb (suc (length run)) 255 ≡ ltb (length run) 254 = ground arith in
    rw (same, code, fit, take-length-append run more, drop-length-append run more, size)

-- The decoder takes a length code and its block in one round.
pub decode_loop-block :
    (n g : ℕ) (run more out : Bytes)
    → length run ≡ n
    → n ≤ 254
    → decode_loop (suc g) ((n + 1) ∷ (run ++ more)) out
      ≡ decode_loop g more (padded n (out ++ run) more)
decode_loop-block n g run more out e fits =
    let code : n + 1 ≡ suc (length run) = omega arith in
    let same : n ≡ length run = omega arith in
    ap (λ (c : ℕ). decode_loop (suc g) (c ∷ (run ++ more)) out) code
    ∙ decode_loop-run g run more out (omega arith)
    ∙ ap (λ (c : ℕ). decode_loop g more (padded c (out ++ run) more)) (sym same)
