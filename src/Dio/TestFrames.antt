-- ===== src/Dio/TestFrames.antt =====
-- dio_link.py: the generator of test payloads, and the count of the bits that differ.
use espstation.Common.{
  ℕ, zero, suc, ◌+◌, ◌-◌, ◌*◌, ◌/◌, ◌%◌, ◌^◌, ◌≤◌, ◌<◌, ◌≡◌, ◌↔◌, refl, ap, ap₂, ◌∙◌, sym, arith,
  [], ◌∷◌, bit_xor, Bytes, IsByte, All, length, ◌==◌, if◌then◌else◌,
}
use espstation.Common.Bits.{bit_xor_self, bit_xor_cancel, bit_xor_comm, bit_xor-zero}
use espstation.Dio.Framing.{max_payload}

abbrev seed : ℕ
seed = 0xc0ffee

-- `x & _MASK32` is `x % 2 ^ 32`.
xorshift32 : ℕ → ℕ
xorshift32 x =
    let x = x % 2 ^ 32 in
    let x = bit_xor x (x * 2 ^ 13 % 2 ^ 32) in
    let x = bit_xor x (x / 2 ^ 17) in bit_xor x (x * 2 ^ 5 % 2 ^ 32)

-- The generator's state before its first step, which is never 0.
start_state : ℕ → ℕ
start_state seq =
    let st = bit_xor seed (seq * 2654435761 % 2 ^ 32) % 2 ^ 32 in if st == 0 then 1 else st

-- The rest of a payload, from the state that its length was taken from.
more_bytes : ℕ → ℕ → Bytes
more_bytes zero st = []
more_bytes (suc n) st = let st = xorshift32 st in st / 2 ^ 8 % 0x100 ∷ more_bytes n st

unfoldable pub testframe_payload : ℕ → Bytes
unfolding more_bytes start_state xorshift32
testframe_payload seq =
    let seq = seq % 2 ^ 32 in
    let st = xorshift32 (start_state seq) in seq % 0x100 ∷ more_bytes (st % max_payload) st

-- `expected + ((byte0 - expected) & 0xFF)`, where the difference may be negative.
unfoldable pub resync_index : ℕ → ℕ → ℕ
resync_index expected byte0 = expected + (byte0 + (0x100 - expected % 0x100)) % 0x100

-- The digits of `x` that are 1, on fuel.
count_ones : ℕ → ℕ → ℕ
count_ones zero x = 0
count_ones (suc n) x = x % 2 + count_ones n (x / 2)

pub popcount : ℕ → ℕ
unfolding count_ones
popcount x = count_ones x x

-- The expected payload is padded with zeros to the received one's length, and cut to it by `zip`.
unfoldable pub payload_bit_errors : Bytes → Bytes → ℕ
unfolding popcount
payload_bit_errors [] expected = 0
payload_bit_errors (r ∷ received) [] = popcount (bit_xor r 0) + payload_bit_errors received []
payload_bit_errors (r ∷ received) (e ∷ expected) =
    popcount (bit_xor r e) + payload_bit_errors received expected

count_ones-zero : (n : ℕ) → count_ones n 0 ≡ 0
unfolding count_ones
count_ones-zero zero = refl
count_ones-zero (suc n) = omega (arith, count_ones-zero n)

count_ones-eq-zero : (n x : ℕ) → x ≤ n → count_ones n x ≡ 0 → x ≡ 0
unfolding count_ones
count_ones-eq-zero zero x h e = omega arith
count_ones-eq-zero (suc n) x h e =
    omega (arith, count_ones-eq-zero n (x / 2) (omega arith) (omega arith))

popcount_iff : (a b : ℕ) → popcount (bit_xor a b) ≡ 0 → a ≡ b
unfolding popcount
popcount_iff a b e =
    let z : bit_xor a b ≡ 0 = count_ones-eq-zero (bit_xor a b) (bit_xor a b) (omega arith) e in
    sym (bit_xor_cancel a b) ∙ ap (λ t. bit_xor t b) z ∙ bit_xor_comm 0 b ∙ bit_xor-zero b

popcount_self : (a : ℕ) → popcount (bit_xor a a) ≡ 0
unfolding popcount
popcount_self a = rw (bit_xor_self a) refl

pub payload_bit_errors_self : (payload : Bytes) → payload_bit_errors payload payload ≡ 0
unfolding payload_bit_errors
payload_bit_errors_self [] = refl
payload_bit_errors_self (x ∷ xs) = omega (arith, popcount_self x, payload_bit_errors_self xs)

payload_bit_errors-agree :
    (rs es : Bytes) → length rs ≡ length es → payload_bit_errors rs es ≡ 0 → rs ≡ es
unfolding payload_bit_errors
payload_bit_errors-agree [] [] l e = refl
payload_bit_errors-agree [] (y ∷ es) l e = absurd (omega (arith, l))
payload_bit_errors-agree (x ∷ rs) [] l e = absurd (omega (arith, l))
payload_bit_errors-agree (x ∷ rs) (y ∷ es) l e =
    ap₂ ◌∷◌ (popcount_iff x y (omega (arith, e)))
      (payload_bit_errors-agree rs es (omega (arith, l)) (omega (arith, e)))

-- Two payloads of one length show no bit errors exactly when they are equal.
pub payload_bit_errors_iff :
    (received expected : Bytes)
    → length received ≡ length expected
    → (payload_bit_errors received expected ≡ 0) ↔ (received ≡ expected)
payload_bit_errors_iff received expected same = (
  payload_bit_errors-agree received expected same,
  λ e. ap (payload_bit_errors received) (sym e) ∙ payload_bit_errors_self received,
)

length-more_bytes : (n st : ℕ) → length (more_bytes n st) ≡ n
unfolding more_bytes
length-more_bytes zero st = refl
length-more_bytes (suc n) st = ap suc (length-more_bytes n (xorshift32 st))

more_bytes-IsByte : (n st : ℕ) → All IsByte (more_bytes n st)
unfolding more_bytes
more_bytes-IsByte zero st = tt
more_bytes-IsByte (suc n) st = (omega arith, more_bytes-IsByte n (xorshift32 st))

-- Every test payload has 1 to 32 bytes, fits a frame, and begins with the low byte of its number.
pub testframe_payload_shape :
    (seq : ℕ)
    → (1 ≤ length (testframe_payload seq))
      × (length (testframe_payload seq) ≤ max_payload)
      × (All IsByte (testframe_payload seq))
      × ((rest : Bytes) × (testframe_payload seq ≡ seq % 0x100 ∷ rest))
unfolding testframe_payload
testframe_payload_shape seq =
    let st : ℕ = xorshift32 (start_state (seq % 2 ^ 32)) in
    (
      omega arith,
      omega (arith, length-more_bytes (st % max_payload) st),
      (omega arith, more_bytes-IsByte (st % max_payload) st),
      (
        more_bytes (st % max_payload) st,
        ap (λ b. b ∷ more_bytes (st % max_payload) st) (omega arith),
      ),
    )

-- A frame that is up to 255 ahead of the expected one is found by the low byte of its number.
pub resync_index-ahead :
    (expected seq : ℕ)
    → expected ≤ seq
    → seq < expected + 0x100
    → resync_index expected (seq % 0x100) ≡ seq
unfolding resync_index
resync_index-ahead expected seq lo hi = omega arith
