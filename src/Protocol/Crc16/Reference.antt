-- ===== src/Protocol/Crc16/Reference.antt =====
-- crc16.py: the table gives what eight shifts for each byte give.
use espstation.Common.{
  ℕ, zero, suc, ◌+◌, ◌*◌, ◌/◌, ◌%◌, ◌^◌, ◌<◌, ◌≡◌, refl, sym, ap, ap₂, ◌∙◌, arith, [], ◌∷◌, bit_xor,
  true, ◌==◌, ==_iff, Bytes, IsByte, All,
}
use espstation.Common.Bits.{
  every_byte, every_byte-holds, bit_xor_comm, bit_xor_fields, bit_xor-lt, bit_xor-zero,
}
use espstation.Protocol.Crc16.{
  shift_bit, shift_bits, build_table, table, entry, add_byte, add_bytes, crc16_ccitt_false,
}
use espstation.Protocol.Crc16.Linear.{IsWord, shift_bits-IsWord, shift_bits-xor}

-- The remainder bit by bit: the byte joins the high half, and eight shifts follow.
unfoldable pub shift_in : ℕ → ℕ → ℕ
shift_in crc byte = shift_bits 8 (bit_xor crc (byte * 256))

unfoldable pub shift_in_all : Bytes → ℕ → ℕ
shift_in_all [] crc = crc
shift_in_all (byte ∷ bytes) crc = shift_in_all bytes (shift_in crc byte)

entry-build_table : (n i k : ℕ) → k < n → entry (build_table n i) k ≡ shift_bits 8 ((i + k) * 256)
unfolding entry build_table
entry-build_table zero i k h = absurd (omega arith)
entry-build_table (suc n) i zero h = ap (λ t. shift_bits 8 (t * 256)) (omega arith)
entry-build_table (suc n) i (suc k) h =
    entry-build_table n (i + 1) k (omega arith) ∙ ap (λ t. shift_bits 8 (t * 256)) (omega arith)

pub entry-table : (k : ℕ) → k < 256 → entry table k ≡ shift_bits 8 (k * 256)
unfolding table
entry-table k h = entry-build_table 256 0 k h ∙ ap (λ t. shift_bits 8 (t * 256)) (omega arith)

low_table : every_byte (λ l. shift_bits 8 l == l * 256) ≡ true
unfolding every_byte shift_bits shift_bit
low_table = refl

shift_bits-low : (l : ℕ) → l < 256 → shift_bits 8 l ≡ l * 256
shift_bits-low l h = (==_iff _ _).0 (every_byte-holds _ l low_table h)

mod-lt256 : (n : ℕ) → n < 256 → n % 256 ≡ n
mod-lt256 n h = omega arith

module _ (crc byte : ℕ) (c : IsWord crc) (b : IsByte byte) where
  high : ℕ
  high = bit_xor (crc / 256) byte

  high-lt : high < 256
  unfolding high
  high-lt = bit_xor-lt 8 (crc / 256) byte (omega arith) b

  -- The state with the byte in it, apart into its halves.
  halves : bit_xor crc (byte * 256) ≡ bit_xor (high * 256) (crc % 256)
  unfolding high
  halves =
      ap₂ bit_xor split (omega arith)
      ∙ bit_xor_fields 8 (crc / 256) byte (crc % 256) 0 (omega arith) (omega arith)
      ∙ ap₂ (λ (s t : ℕ). s * 2 ^ 8 + t) (sym (bit_xor-zero high)) (bit_xor_comm (crc % 256) 0)
      ∙ sym (bit_xor_fields 8 high 0 0 (crc % 256) (omega arith) (omega arith))
      ∙ ap₂ bit_xor (omega arith) (omega arith)
    where
      split : crc ≡ crc / 256 * 2 ^ 8 + crc % 256
      split = omega arith

  pub add_byte-shift_in : add_byte crc byte ≡ shift_in crc byte
  unfolding add_byte shift_in high
  add_byte-shift_in =
      let low : crc * 256 % 0x10000 ≡ shift_bits 8 (crc % 256) =
        sym (shift_bits-low (crc % 256) (omega arith) ∙ omega arith) in
      let index : bit_xor (crc / 256) byte % 256 ≡ high = mod-lt256 high high-lt in
      ap₂ bit_xor low (ap (entry table) index ∙ entry-table high high-lt)
      ∙ bit_xor_comm (shift_bits 8 (crc % 256)) (shift_bits 8 (high * 256))
      ∙ sym (shift_bits-xor 8 (high * 256) (crc % 256) (omega (arith, high-lt)) (omega arith))
      ∙ ap (shift_bits 8) (sym halves)

pub shift_in-IsWord : (crc byte : ℕ) → IsWord crc → IsByte byte → IsWord (shift_in crc byte)
unfolding shift_in
shift_in-IsWord crc byte c b =
    shift_bits-IsWord 8 (bit_xor crc (byte * 256)) (bit_xor-lt 16 crc (byte * 256) c (omega arith))

pub shift_in_all-IsWord :
    (bytes : Bytes) (crc : ℕ) → All IsByte bytes → IsWord crc → IsWord (shift_in_all bytes crc)
unfolding shift_in_all
shift_in_all-IsWord [] crc h c = c
shift_in_all-IsWord (x ∷ bytes) crc (b, h) c =
    shift_in_all-IsWord bytes (shift_in crc x) h (shift_in-IsWord crc x c b)

add_bytes-shift_in_all :
    (bytes : Bytes) (crc : ℕ)
    → All IsByte bytes
    → IsWord crc
    → add_bytes bytes crc ≡ shift_in_all bytes crc
unfolding add_bytes shift_in_all
add_bytes-shift_in_all [] crc h c = refl
add_bytes-shift_in_all (x ∷ bytes) crc (b, h) c =
    ap (add_bytes bytes) (add_byte-shift_in crc x c b)
    ∙ add_bytes-shift_in_all bytes (shift_in crc x) h (shift_in-IsWord crc x c b)

-- On every byte string and every 16-bit seed the table-driven checksum is the remainder that is
-- computed bit by bit, with eight shifts for each byte.
pub crc16_ccitt_false-shift_in_all :
    (bytes : Bytes) (crc : ℕ)
    → All IsByte bytes
    → IsWord crc
    → crc16_ccitt_false bytes crc ≡ shift_in_all bytes crc
unfolding crc16_ccitt_false
crc16_ccitt_false-shift_in_all bytes crc h c =
    omega (arith, add_bytes-shift_in_all bytes crc h c, shift_in_all-IsWord bytes crc h c)

pub crc16_ccitt_false-IsWord : (bytes : Bytes) (crc : ℕ) → IsWord (crc16_ccitt_false bytes crc)
unfolding crc16_ccitt_false
crc16_ccitt_false-IsWord bytes crc = omega arith
