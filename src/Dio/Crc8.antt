-- ===== src/Dio/Crc8.antt =====
-- dio_link.py: CRC-8/SMBUS. `x & 0xFF` is `x % 256`, and `crc & 0x80` asks for the top digit.
use espstation.Common.{
  ℕ, zero, suc, ◌+◌, ◌*◌, ◌/◌, ◌%◌, ◌≡◌, ◌≢◌, refl, sym, ap, ◌∙◌, arith, [], ◌∷◌, ◌++◌, bit_xor,
  Bytes, IsByte, All, ◌==◌, ==_iff, ltb, true, if◌then◌else◌,
}
use espstation.Common.Bits.{every_byte, every_byte-holds, bit_xor_comm, bit_xor_cancel, bit_xor-lt}

abbrev pub crc8_poly : ℕ
crc8_poly = 0x07

shift_bit : ℕ → ℕ
shift_bit crc = if crc / 0x80 % 2 == 1 then bit_xor (crc * 2) crc8_poly % 0x100 else crc * 2 % 0x100

-- `for _ in range(n)`.
shift_bits : ℕ → ℕ → ℕ
shift_bits zero crc = crc
shift_bits (suc n) crc = shift_bits n (shift_bit crc)

add_bytes : ℕ → Bytes → ℕ
add_bytes crc [] = crc
add_bytes crc (byte ∷ bytes) = add_bytes (shift_bits 8 (bit_xor crc byte)) bytes

unfoldable pub crc8 : Bytes → ℕ
unfolding add_bytes shift_bits shift_bit
crc8 bytes = add_bytes 0 bytes

-- Eight shifts backwards.
unshift_bit : ℕ → ℕ
unshift_bit crc = if crc % 2 == 1 then bit_xor crc crc8_poly / 2 + 0x80 else crc / 2

unshift_bits : ℕ → ℕ → ℕ
unshift_bits zero crc = crc
unshift_bits (suc n) crc = unshift_bits n (unshift_bit crc)

back_table : every_byte (λ c. unshift_bits 8 (shift_bits 8 c) == c) ≡ true
unfolding every_byte unshift_bits unshift_bit shift_bits shift_bit
back_table = refl

range_table : every_byte (λ c. ltb (shift_bits 8 c) 256) ≡ true
unfolding every_byte shift_bits shift_bit
range_table = refl

shift_bits-IsByte : (c : ℕ) → IsByte c → IsByte (shift_bits 8 c)
shift_bits-IsByte c h =
    ground (arith, every_byte-holds (λ c. ltb (shift_bits 8 c) 256) c range_table h)

shift_bits_inj : (a b : ℕ) → IsByte a → IsByte b → shift_bits 8 a ≡ shift_bits 8 b → a ≡ b
shift_bits_inj a b p q e =
    sym ((==_iff _ _).0 (every_byte-holds _ a back_table p))
    ∙ ap (unshift_bits 8) e
    ∙ (==_iff _ _).0 (every_byte-holds _ b back_table q)

add_bytes-IsByte :
    (crc : ℕ) (bytes : Bytes) → IsByte crc → All IsByte bytes → IsByte (add_bytes crc bytes)
unfolding add_bytes
add_bytes-IsByte crc [] c h = c
add_bytes-IsByte crc (x ∷ bytes) c (b, h) =
    add_bytes-IsByte (shift_bits 8 (bit_xor crc x)) bytes
      (shift_bits-IsByte (bit_xor crc x) (bit_xor-lt 8 crc x c b)) h

pub crc8-IsByte : (bytes : Bytes) → All IsByte bytes → IsByte (crc8 bytes)
unfolding crc8
crc8-IsByte bytes h = add_bytes-IsByte 0 bytes (omega arith) h

add_bytes_inj :
    (bytes : Bytes) (c d : ℕ)
    → All IsByte bytes
    → IsByte c
    → IsByte d
    → add_bytes c bytes ≡ add_bytes d bytes
    → c ≡ d
unfolding add_bytes
add_bytes_inj [] c d h p q e = e
add_bytes_inj (x ∷ bytes) c d (b, h) p q e =
    let mixed : bit_xor c x ≡ bit_xor d x =
      shift_bits_inj (bit_xor c x) (bit_xor d x) (bit_xor-lt 8 c x p b) (bit_xor-lt 8 d x q b) (
        add_bytes_inj bytes (shift_bits 8 (bit_xor c x)) (shift_bits 8 (bit_xor d x)) h
          (shift_bits-IsByte (bit_xor c x) (bit_xor-lt 8 c x p b))
          (shift_bits-IsByte (bit_xor d x) (bit_xor-lt 8 d x q b)) e) in
    sym (bit_xor_cancel c x) ∙ ap (λ t. bit_xor t x) mixed ∙ bit_xor_cancel d x

add_bytes-append :
    (crc : ℕ) (xs ys : Bytes) → add_bytes crc (xs ++ ys) ≡ add_bytes (add_bytes crc xs) ys
unfolding add_bytes
add_bytes-append crc [] ys = refl
add_bytes-append crc (x ∷ xs) ys = add_bytes-append (shift_bits 8 (bit_xor crc x)) xs ys

-- Two byte strings that differ in one byte have different CRC-8 checksums.
pub crc8_detects :
    (front back : Bytes) (x y : ℕ)
    → All IsByte front
    → All IsByte back
    → IsByte x
    → IsByte y
    → x ≢ y
    → crc8 (front ++ x ∷ back) ≢ crc8 (front ++ y ∷ back)
unfolding crc8
crc8_detects front back x y hf hb hx hy ne e =
    let c : ℕ = add_bytes 0 front in
    let w : IsByte c = add_bytes-IsByte 0 front (omega arith) hf in
    let bx : IsByte (bit_xor c x) = bit_xor-lt 8 c x w hx in
    let by : IsByte (bit_xor c y) = bit_xor-lt 8 c y w hy in
    let mixed : bit_xor c x ≡ bit_xor c y = shift_bits_inj (bit_xor c x) (bit_xor c y) bx by (
      add_bytes_inj back (shift_bits 8 (bit_xor c x)) (shift_bits 8 (bit_xor c y)) hb
        (shift_bits-IsByte (bit_xor c x) bx) (shift_bits-IsByte (bit_xor c y) by)
        (sym (add_bytes-append 0 front (x ∷ back)) ∙ e ∙ add_bytes-append 0 front (y ∷ back))) in
    ne (
      sym (bit_xor_cancel x c)
      ∙ ap (λ t. bit_xor t c) (bit_xor_comm x c ∙ mixed ∙ bit_xor_comm c y)
      ∙ bit_xor_cancel y c)
