-- ===== src/Protocol/Cobs/Rounds.antt =====
-- cobs.py: the rounds of the encoder's loop write an encoding of the data.
use espstation.Common.{
  ℕ, zero, suc, ◌+◌, ◌-◌, ◌≤◌, ◌<◌, ◌≡◌, ◌≢◌, refl, sym, ap, subst, ◌∙◌, arith, [], ◌∷◌, ◌++◌, some,
  ◌==◌, Bytes, IsByte, length, take, drop, All, All-take, All-drop, false, length-take, length-drop,
  take-append-drop, append-nil, append_assoc, ok,
}
use espstation.Protocol.Cobs.{block_size, after_zero, next_block, encode_block, encode_loop, encode}
use espstation.Protocol.Cobs.Joined.{
  Encodes, joined, Encodes-last, Encodes-zero, Encodes-full, Encodes-nil,
}
use espstation.Protocol.Cobs.Blocks.{Ending, at_end, at_zero, at_full, Block, block_size-Block}

-- One round of the encoder, by how its block has ended.
module _ (fuel : ℕ) (rest out : Bytes) where
  written : Bytes
  written = out ++ (block_size rest + 1) ∷ take (block_size rest) rest

  encode_block_lem :
      (after : Bytes)
      → drop (block_size rest) rest ≡ after
      → encode_block rest out ≡ next_block written after
  unfolding encode_block written
  encode_block_lem after e = ap (next_block written) e

  encode_loop-end : drop (block_size rest) rest ≡ [] → encode_loop (suc fuel) rest out ≡ ok written
  unfolding encode_loop next_block
  encode_loop-end e = rw (encode_block_lem [] e, encode_loop) (rw (encode_block_lem [] e))

  encode_loop-zero_end :
      drop (block_size rest) rest ≡ 0 ∷ []
      → encode_loop (suc fuel) rest out ≡ ok (written ++ 1 ∷ [])
  unfolding encode_loop next_block after_zero
  encode_loop-zero_end e =
      rw (encode_block_lem (0 ∷ []) e, encode_loop) (rw (encode_block_lem (0 ∷ []) e))

  encode_loop-zero :
      (y : ℕ) (ys : Bytes)
      → drop (block_size rest) rest ≡ 0 ∷ y ∷ ys
      → encode_loop (suc fuel) rest out ≡ encode_loop fuel (y ∷ ys) written
  unfolding encode_loop next_block after_zero
  encode_loop-zero y ys e =
      rw (encode_block_lem (0 ∷ y ∷ ys) e, encode_loop) (rw (encode_block_lem (0 ∷ y ∷ ys) e))

  encode_loop-full :
      (x : ℕ) (xs : Bytes)
      → drop (block_size rest) rest ≡ x ∷ xs
      → x ≢ 0
      → encode_loop (suc fuel) rest out ≡ encode_loop fuel (x ∷ xs) written
  unfolding encode_loop next_block
  encode_loop-full x xs e nz =
      let other : (x == 0) ≡ false = ground arith in
      let round : encode_block rest out ≡ (written, some (x ∷ xs)) =
        encode_block_lem (x ∷ xs) e ∙ rw other in
      rw (round, encode_loop) (rw round)

-- A round, given what the later rounds do.
module _ (fuel : ℕ) (rest out : Bytes) (q : length rest ≤ suc fuel) (b : All IsByte rest)
    (ih : (rest' out' : Bytes)
      → 0 < length rest'
      → length rest' ≤ fuel
      → All IsByte rest'
      → (enc : Bytes) × (encode_loop fuel rest' out' ≡ ok (out' ++ enc)) × Encodes rest' enc) where
  abbrev size : ℕ
  size = block_size rest

  abbrev run : Bytes
  run = take size rest

  run-IsByte : All IsByte run
  run-IsByte = All-take IsByte size rest b

  behind-IsByte : {after : Bytes} → drop size rest ≡ after → All IsByte after
  behind-IsByte d = rw d at (All-drop IsByte size rest b)

  length-behind : {after : Bytes} → drop size rest ≡ after → length after ≡ length rest - size
  length-behind d = sym (ap length d) ∙ length-drop size rest

  -- The encoding of the data that is split at the block's end is one of the data.
  whole :
      {enc : Bytes} (after : Bytes)
      → drop size rest ≡ after
      → Encodes (run ++ after) enc
      → Encodes rest enc
  whole {enc} after d h = rw (← d, take-append-drop size rest) at h

  encode_step :
      Block size rest
      → Ending size (drop size rest)
      → 0 < length rest
      → (enc : Bytes) × (encode_loop (suc fuel) rest out ≡ ok (out ++ enc)) × Encodes rest enc
  unfolding written
  encode_step k (at_end d) p = (
    joined size run [],
    encode_loop-end fuel rest out d ∙ rw append-nil,
    whole [] d (
        subst (λ r. Encodes r (joined size run [])) (sym (append-nil run))
          (Encodes-last size run (length-take size rest k.within) k.fits run-IsByte k.filled)),
  )
  encode_step k (at_zero [] d) p = (
    joined size run (1 ∷ []),
    encode_loop-zero_end fuel rest out d ∙ rw append_assoc,
    whole (0 ∷ []) d (
        Encodes-zero size run (length-take size rest k.within) k.fits run-IsByte k.filled []
          Encodes-nil),
  )
  encode_step k (at_zero (y ∷ ys) d) p =
      let (enc, e, h) =
        ih (y ∷ ys) (written fuel rest out) (omega arith) (omega (arith, length-behind d))
          (behind-IsByte d).1 in
      (
        joined size run enc,
        encode_loop-zero fuel rest out y ys d ∙ e ∙ rw append_assoc,
        whole (0 ∷ y ∷ ys) d (
            Encodes-zero size run (length-take size rest k.within) k.fits run-IsByte k.filled
              (y ∷ ys) h),
      )
  encode_step k (at_full x xs d nz full) p =
      let (enc, e, h) =
        ih (x ∷ xs) (written fuel rest out) (omega arith) (omega (arith, length-behind d))
          (behind-IsByte d) in
      (
        joined size run enc,
        encode_loop-full fuel rest out x xs d nz ∙ e ∙ rw append_assoc,
        whole (x ∷ xs) d (
            Encodes-full size run (length-take size rest k.within) k.fits run-IsByte k.filled x xs
              nz full h),
      )

-- The encoder ends, and what it appends encodes the data.
encode_loop-Encodes :
    (fuel : ℕ) (rest out : Bytes)
    → 0 < length rest
    → length rest ≤ fuel
    → All IsByte rest
    → (enc : Bytes) × (encode_loop fuel rest out ≡ ok (out ++ enc)) × Encodes rest enc
encode_loop-Encodes zero rest out p q b = absurd (omega arith)
encode_loop-Encodes (suc fuel) rest out p q b =
    let k = block_size-Block rest in
    encode_step fuel rest out q b (encode_loop-Encodes fuel) k k.ending p

-- The encoder's result for every data: it ends without an error.
pub encode-Encodes :
    (xs : Bytes) → All IsByte xs → (enc : Bytes) × (encode xs ≡ ok enc) × Encodes xs enc
unfolding encode
encode-Encodes [] b = (1 ∷ [], refl, Encodes-nil)
encode-Encodes (x ∷ xs) b =
    encode_loop-Encodes (length (x ∷ xs)) (x ∷ xs) [] (omega arith) (omega arith) b
