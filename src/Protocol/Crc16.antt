-- ===== src/Protocol/Crc16.antt =====
-- gateway/espstation_gateway/protocol/crc16.py: CRC-16/CCITT-FALSE by a table. `x & 0xFFFF` is
-- written `x % 65536`, `x << 8` is `x * 256` and `crc & 0x8000` asks for the top digit.
mod Linear
pub mod Reference
pub mod Detects
use espstation.Common.{
  ℕ, zero, suc, ◌+◌, ◌*◌, ◌/◌, ◌%◌, List, [], ◌∷◌, ◌==◌, if◌then◌else◌, bit_xor, Bytes,
}

abbrev pub poly : ℕ
poly = 0x1021

abbrev pub init : ℕ
init = 0xffff

-- One shift of `_build_table`.
pub shift_bit : ℕ → ℕ
shift_bit crc =
    if crc / 0x8000 % 2 == 1 then bit_xor (crc * 2) poly % 0x10000 else crc * 2 % 0x10000

-- `for _ in range(n)`.
pub shift_bits : ℕ → ℕ → ℕ
shift_bits zero crc = crc
shift_bits (suc n) crc = shift_bits n (shift_bit crc)

-- The entries from `i` on, `n` of them.
pub build_table : ℕ → ℕ → List ℕ
build_table zero i = []
build_table (suc n) i = shift_bits 8 (i * 256) ∷ build_table n (i + 1)

pub table : List ℕ
table = build_table 256 0

-- `_TABLE[i]`; the masks keep the index below 256.
pub entry : List ℕ → ℕ → ℕ
entry [] i = 0
entry (x ∷ xs) zero = x
entry (x ∷ xs) (suc i) = entry xs i

-- The loop's body.
pub add_byte : ℕ → ℕ → ℕ
add_byte crc byte = bit_xor (crc * 256 % 0x10000) (entry table (bit_xor (crc / 256) byte % 256))

pub add_bytes : Bytes → ℕ → ℕ
add_bytes [] crc = crc
add_bytes (byte ∷ bytes) crc = add_bytes bytes (add_byte crc byte)

unfoldable pub crc16_ccitt_false : Bytes → ℕ → ℕ
unfolding add_bytes add_byte entry table build_table shift_bits shift_bit
crc16_ccitt_false bytes crc = add_bytes bytes crc % 0x10000
