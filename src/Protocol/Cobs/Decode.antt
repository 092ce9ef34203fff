-- ===== src/Protocol/Cobs/Decode.antt =====
-- cobs.py: the decoder on any input.
use espstation.Common.{
  ℕ, zero, suc, ◌-◌, ◌≤◌, ◌≢◌, arith, [], ◌∷◌, ◌++◌, ◌&&◌, ltb, if◌then◌else◌, Bytes, length, take,
  drop, length-drop, stuck,
}
use espstation.Protocol.Cobs.{nonempty, decode_loop, decode}

decode_loop-ne-stuck :
    (fuel : ℕ) (xs out : Bytes) → length xs ≤ fuel → decode_loop fuel xs out ≢ stuck
unfolding decode_loop
decode_loop-ne-stuck fuel [] out h e = cc
decode_loop-ne-stuck zero (c ∷ xs) out h e = absurd (omega arith)
decode_loop-ne-stuck (suc fuel) (c ∷ xs) out h e =
    let more =
      if ltb c 255 && nonempty (drop c (c ∷ xs))
      then out ++ take (c - 1) xs ++ 0 ∷ []
      else out ++ take (c - 1) xs in
    ground (arith, length-drop c (c ∷ xs), decode_loop-ne-stuck fuel (drop c (c ∷ xs)) more)

-- The decoder ends on every input, with data or with an error.
pub decode-ne-stuck : (xs : Bytes) → decode xs ≢ stuck
unfolding decode
decode-ne-stuck [] e = cc
decode-ne-stuck (x ∷ xs) e = decode_loop-ne-stuck (length (x ∷ xs)) (x ∷ xs) [] (omega arith) e
