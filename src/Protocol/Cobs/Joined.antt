-- ===== src/Protocol/Cobs/Joined.antt =====
-- cobs.py: one block and the encoding of the data behind it make an encoding of the data.
use espstation.Common.{
  ℕ, zero, suc, ◌+◌, ◌/◌, ◌≤◌, ◌<◌, ◌≡◌, ◌≢◌, ap, ◌∙◌, arith, [], ◌∷◌, ◌++◌, ◌==◌, Bytes, IsByte,
  length, All, All-append, Bool-cases, inl, inr, length-append, append_assoc, ok,
}
use espstation.Protocol.Cobs.{nonempty, decode_loop}
use espstation.Protocol.Cobs.Delivered.{
  IsNonZero, delivered, delivered-append, delivered-full, delivered-zero, delivered-nil,
  delivered_block,
}
use espstation.Protocol.Cobs.Blocks.{padded, decode_loop-block}

abbrev pub IsStuffed : ℕ → Type 0
IsStuffed b = (0 < b) × (b < 256)

-- What every encoding `enc` of the data `rest` has.
pub record Encodes (rest enc : Bytes) : Type 0 where
  pub starts : 0 < length enc
  pub stuffed : All IsStuffed enc
  pub short : length enc ≤ length rest + length rest / 254 + 1
  pub decodes :
      (g : ℕ) (out : Bytes) → length enc ≤ g → decode_loop g enc out ≡ ok (out ++ delivered 0 rest)

All-IsStuffed : (xs : Bytes) → All IsByte xs → All IsNonZero xs → All IsStuffed xs
All-IsStuffed [] b z = tt
All-IsStuffed (x ∷ xs) (b, bs) (z, zs) = ((omega arith, b), All-IsStuffed xs bs zs)

padded-open :
    (n : ℕ) (out enc : Bytes) → n < 254 → 0 < length enc → padded n out enc ≡ out ++ 0 ∷ []
unfolding nonempty
padded-open n out [] h k = absurd (omega arith)
padded-open n out (x ∷ xs) h k = ground arith

-- A length code, its block, and the encoding of what follows.
abbrev pub joined : ℕ → Bytes → Bytes → Bytes
joined n run enc = (n + 1) ∷ (run ++ enc)

-- The block `run` at the front of the data, and an encoding of what follows it.
module _ (n : ℕ) (run : Bytes) (size : length run ≡ n) (fits : n ≤ 254) (bytes : All IsByte run)
    (filled : All IsNonZero run) where
  joined-IsStuffed : (enc : Bytes) → All IsStuffed enc → All IsStuffed (joined n run enc)
  joined-IsStuffed enc h =
      (omega arith, All-append IsStuffed run enc (All-IsStuffed run bytes filled) h)

  length-joined : (enc : Bytes) → length (joined n run enc) ≡ n + 1 + length enc
  length-joined enc = omega (arith, length-append run enc)

  decode_loop-joined :
      (enc rest : Bytes)
      → ((g : ℕ) (out : Bytes)
          → length enc ≤ g
          → decode_loop g enc (padded n (out ++ run) enc) ≡ ok (out ++ delivered 0 rest))
      → (g : ℕ) (out : Bytes) → length (joined n run enc) ≤ g
      → decode_loop g (joined n run enc) out ≡ ok (out ++ delivered 0 rest)
  decode_loop-joined enc rest h zero out p = absurd (omega arith)
  decode_loop-joined enc rest h (suc g) out p =
      decode_loop-block n g run enc out size fits ∙ h g out (omega (arith, length-append run enc))

  -- The data ends with this block.
  pub Encodes-last : Encodes run (joined n run [])
  Encodes-last = record {
    starts = omega (arith, length-joined []);
    stuffed = joined-IsStuffed [] tt;
    short = omega (arith, length-joined []);
    decodes = decode_loop-joined [] run (λ g out p.
        unfold decode_loop nonempty in
        rw (delivered_block run filled (omega arith)) (ground arith));
  }

  -- The block, and what is delivered behind it.
  delivered-run : (rest : Bytes) → delivered 0 (run ++ rest) ≡ run ++ delivered n rest
  delivered-run rest =
      delivered-append 0 run rest filled (omega arith)
      ∙ ap (λ k. run ++ delivered k rest) (omega arith)

  module _ {enc : Bytes} where
    -- A zero ends the block.
    pub Encodes-zero : (xs : Bytes) → Encodes xs enc → Encodes (run ++ 0 ∷ xs) (joined n run enc)
    Encodes-zero xs e = record {
      starts = omega (arith, length-joined enc);
      stuffed = joined-IsStuffed enc e.stuffed;
      short = omega (arith, length-joined enc, length-append run (0 ∷ xs), e.short);
      decodes = decode_loop-joined enc (run ++ 0 ∷ xs) (λ g out p. elim (Bool-cases (n == 254)) [
        | inl full ↦
            let n254 : n ≡ 254 = ground arith in
            rw (delivered-run, delivered-zero, full, n254)
              (e.decodes g (out ++ run) p ∙ rw append_assoc)
        | inr open_run ↦
            rw
              (
                delivered-run,
                delivered-zero,
                open_run,
                padded-open n (out ++ run) enc (ground arith) e.starts,
              )
              (e.decodes g (out ++ run ++ 0 ∷ []) p ∙ simp append_assoc)
      ]);
    }

    -- The block is full, and the data goes on with a byte that is not a zero.
    pub Encodes-full :
        (x : ℕ) (xs : Bytes)
        → x ≢ 0
        → n ≡ 254
        → Encodes (x ∷ xs) enc
        → Encodes (run ++ x ∷ xs) (joined n run enc)
    Encodes-full x xs nz full e = record {
      starts = omega (arith, length-joined enc);
      stuffed = joined-IsStuffed enc e.stuffed;
      short = omega (arith, length-joined enc, length-append run (x ∷ xs), e.short);
      decodes = decode_loop-joined enc (run ++ x ∷ xs) (λ g out p.
          rw (delivered-run, full, delivered-full x xs nz)
            (e.decodes g (out ++ run) p ∙ rw append_assoc));
    }

decode_loop-one :
    (g : ℕ) (out : Bytes) → 1 ≤ g → decode_loop g (1 ∷ []) out ≡ ok (out ++ delivered 0 [])
unfolding decode_loop nonempty
decode_loop-one zero out h = absurd (omega arith)
decode_loop-one (suc g) out h = rw delivered-nil (ground arith)

pub Encodes-nil : Encodes [] (1 ∷ [])
Encodes-nil = record {
  starts = omega arith;
  stuffed = omega arith;
  short = omega arith;
  decodes = decode_loop-one;
}
