-- ===== src/Protocol/Cobs.antt =====
-- gateway/espstation_gateway/protocol/cobs.py: consistent overhead byte stuffing. An index into
-- `data` is the list of the bytes from it on, and each `while` recurs on fuel.
pub mod Delivered
mod Blocks
pub mod Joined
mod Rounds
pub mod RoundTrip
pub mod Decode
use espstation.Common.{
  ℕ, zero, suc, ◌+◌, ◌-◌, List, [], ◌∷◌, ◌++◌, Option, none, some, Bool, true, false, ◌&&◌, ◌==◌,
  ltb, if◌then◌else◌, Bytes, length, take, drop, Result, ok, err, stuck,
}

-- The three texts that a `CobsError` is raised with.
pub data CobsError : Type 0 where
  empty_block zero_inside overrun : CobsError

-- `end`: the first zero from the block's start on, or the end of the buffer.
pub block_end : Bytes → ℕ
block_end [] = 0
block_end (x ∷ xs) = if x == 0 then 0 else suc (block_end xs)

-- The same, with the run capped at 254 bytes.
pub block_size : Bytes → ℕ
block_size rest = if ltb 254 (block_end rest) then 254 else block_end rest

-- Behind the zero that ended a block: at the end of the data a last, empty block is written.
pub after_zero : Bytes → Bytes → Bytes × Option Bytes
after_zero out [] = (out ++ 1 ∷ [], none)
after_zero out (x ∷ xs) = (out, some (x ∷ xs))

-- The rest of a round, at `idx = end`: the output, and the data for the next round if there is one.
pub next_block : Bytes → Bytes → Bytes × Option Bytes
next_block out [] = (out, none)
next_block out (x ∷ xs) = if x == 0 then after_zero out xs else (out, some (x ∷ xs))

-- One round: the length code, the block, and what follows it.
pub encode_block : Bytes → Bytes → Bytes × Option Bytes
encode_block rest out =
    let size = block_size rest in next_block (out ++ (size + 1) ∷ take size rest) (drop size rest)

pub encode_loop : ℕ → Bytes → Bytes → Result CobsError Bytes
encode_loop zero rest out = stuck
encode_loop (suc fuel) rest out =
    let (out', more) = encode_block rest out in
    elim more [ none ↦ ok out' | some rest' ↦ encode_loop fuel rest' out' ]

unfoldable pub encode : Bytes → Result CobsError Bytes
unfolding encode_loop encode_block next_block after_zero block_size block_end
encode [] = ok (1 ∷ [])
encode (x ∷ xs) = encode_loop (length (x ∷ xs)) (x ∷ xs) []

pub nonempty : Bytes → Bool
nonempty [] = false
nonempty (x ∷ xs) = true

-- `rest'` is the data from `run_end` on, which is `code` bytes behind the code's own place.
pub decode_loop : ℕ → Bytes → Bytes → Result CobsError Bytes
decode_loop fuel [] out = ok out
decode_loop zero (code ∷ rest) out = stuck
decode_loop (suc fuel) (code ∷ rest) out =
    let out' = out ++ take (code - 1) rest in
    let rest' = drop code (code ∷ rest) in
    let padded = if ltb code 255 && nonempty rest' then out' ++ 0 ∷ [] else out' in
    let next = decode_loop fuel rest' padded in
    if code == 0
    then err zero_inside
    else if ltb (length (code ∷ rest)) code
    then err overrun
    else next

unfoldable pub decode : Bytes → Result CobsError Bytes
unfolding decode_loop nonempty
decode [] = err empty_block
decode (x ∷ xs) = decode_loop (length (x ∷ xs)) (x ∷ xs) []
