-- ===== src/Protocol/Crc16/Linear.antt =====
-- crc16.py: the shift of the table's builder, on an exclusive or and backwards.
use espstation.Common.{
  ℕ, zero, suc, ◌+◌, ◌-◌, ◌*◌, ◌/◌, ◌%◌, ◌^◌, ◌≤◌, ◌<◌, ◌≡◌, ◌⊎◌, inl, inr, refl, sym, ap, ap₂, ◌∙◌,
  arith, true, bit_xor, ◌==◌,
}
use espstation.Common.Bits.{
  bit_xor_step, bit_xor_digit, bit_xor_comm, bit_xor_assoc, bit_xor_cancel, bit_xor_fields,
  bit_xor-lt,
}
use espstation.Protocol.Crc16.{poly, shift_bit, shift_bits}

abbrev pub IsWord : ℕ → Type 0
IsWord c = c < 0x10000

-- A word is below 2 ^ 15, or 2 ^ 15 and a number below.
data Top : ℕ → Type 0 where
  low : {c : ℕ} → c < 0x8000 → Top c
  high : {c : ℕ} (l : ℕ) → l < 0x8000 → c ≡ 1 * 2 ^ 15 + l → Top c

top : (c : ℕ) → IsWord c → Top c
top c h = elim (cases c) [ inl p ↦ low p | inr p ↦ high (c - 0x8000) (omega arith) (omega arith) ]
  where
    cases : (n : ℕ) → (n < 0x8000) ⊎ (0x8000 ≤ n)
    cases n = ground arith

shift_bit-low : (l : ℕ) → l < 0x8000 → shift_bit l ≡ 2 * l
unfolding shift_bit
shift_bit-low l h = ground arith

shift_bit-high : (l : ℕ) → l < 0x8000 → shift_bit (1 * 2 ^ 15 + l) ≡ bit_xor (2 * l) poly
unfolding shift_bit
shift_bit-high l h =
    let test : ((1 * 2 ^ 15 + l) / 0x8000 % 2 == 1) ≡ true = ground arith in
    let twice : (1 * 2 ^ 15 + l) * 2 ≡ 1 * 2 ^ 16 + 2 * l = omega arith in
    rw test (
      omega (
        arith,
        bit_xor_fields 16 1 0 (2 * l) poly (omega arith) (omega arith),
        ap (λ t. bit_xor t poly) twice,
        bit_xor-lt 16 (2 * l) poly (omega arith) (omega arith),
      ))

pub bit_xor-double : (a b : ℕ) → bit_xor (2 * a) (2 * b) ≡ 2 * bit_xor a b
bit_xor-double a b =
    let ea : 2 * a / 2 ≡ a = omega arith in
    let eb : 2 * b / 2 ≡ b = omega arith in
    omega (arith, bit_xor_step (2 * a) (2 * b), ap₂ bit_xor ea eb)

bit_xor_right_comm : (x y z : ℕ) → bit_xor (bit_xor x y) z ≡ bit_xor (bit_xor x z) y
bit_xor_right_comm x y z =
    bit_xor_assoc x y z ∙ ap (bit_xor x) (bit_xor_comm y z) ∙ sym (bit_xor_assoc x z y)

bit_xor_drop : (x y p : ℕ) → bit_xor (bit_xor x p) (bit_xor y p) ≡ bit_xor x y
bit_xor_drop x y p =
    sym (bit_xor_assoc (bit_xor x p) y p)
    ∙ ap (λ t. bit_xor t p) (bit_xor_right_comm x p y)
    ∙ bit_xor_cancel (bit_xor x y) p

-- The shift of a word with the top digit, on an exclusive or with one that lacks it.
shift_bit-xor_high :
    (l b : ℕ)
    → l < 0x8000
    → b < 0x8000
    → shift_bit (bit_xor (1 * 2 ^ 15 + l) b) ≡ bit_xor (shift_bit (1 * 2 ^ 15 + l)) (shift_bit b)
shift_bit-xor_high l b p q =
    let field : bit_xor (1 * 2 ^ 15 + l) b ≡ 1 * 2 ^ 15 + bit_xor l b =
      let e : b ≡ 0 * 2 ^ 15 + b = omega arith in
      ap (bit_xor (1 * 2 ^ 15 + l)) e ∙ bit_xor_fields 15 1 0 l b p q in
    ap shift_bit field
    ∙ shift_bit-high (bit_xor l b) (bit_xor-lt 15 l b p q)
    ∙ ap (λ t. bit_xor t poly) (sym (bit_xor-double l b))
    ∙ bit_xor_right_comm (2 * l) (2 * b) poly
    ∙ sym (ap₂ bit_xor (shift_bit-high l p) (shift_bit-low b q))

shift_bit_Top :
    (a b : ℕ) → Top a → Top b → shift_bit (bit_xor a b) ≡ bit_xor (shift_bit a) (shift_bit b)
shift_bit_Top a b (low p) (low q) =
    shift_bit-low (bit_xor a b) (bit_xor-lt 15 a b p q)
    ∙ sym (bit_xor-double a b)
    ∙ sym (ap₂ bit_xor (shift_bit-low a p) (shift_bit-low b q))
shift_bit_Top a b (high l p e) (low q) = rw e (shift_bit-xor_high l b p q)
shift_bit_Top a b (low p) (high l q e) = rw e (
    ap shift_bit (bit_xor_comm a (1 * 2 ^ 15 + l))
    ∙ shift_bit-xor_high l a q p
    ∙ bit_xor_comm (shift_bit (1 * 2 ^ 15 + l)) (shift_bit a))
shift_bit_Top a b (high l p e) (high k q d) =
    rw (e, d)
      (ap shift_bit (bit_xor_fields 15 1 1 l k p q)
        ∙ ap shift_bit same
        ∙ shift_bit-low (bit_xor l k) (bit_xor-lt 15 l k p q)
        ∙ sym (bit_xor-double l k)
        ∙ sym (bit_xor_drop (2 * l) (2 * k) poly)
        ∙ sym (ap₂ bit_xor (shift_bit-high l p) (shift_bit-high k q)))
  where
    same : bit_xor 1 1 * 2 ^ 15 + bit_xor l k ≡ bit_xor l k
    same = omega arith

pub shift_bit-xor :
    (a b : ℕ) → IsWord a → IsWord b → shift_bit (bit_xor a b) ≡ bit_xor (shift_bit a) (shift_bit b)
shift_bit-xor a b p q = shift_bit_Top a b (top a p) (top b q)

pub shift_bit-IsWord : (c : ℕ) → IsWord (shift_bit c)
unfolding shift_bit
shift_bit-IsWord c = ground arith

pub shift_bits-IsWord : (n c : ℕ) → IsWord c → IsWord (shift_bits n c)
unfolding shift_bits
shift_bits-IsWord zero c h = h
shift_bits-IsWord (suc n) c h = shift_bits-IsWord n (shift_bit c) (shift_bit-IsWord c)

pub shift_bits-xor :
    (n a b : ℕ)
    → IsWord a
    → IsWord b
    → shift_bits n (bit_xor a b) ≡ bit_xor (shift_bits n a) (shift_bits n b)
unfolding shift_bits
shift_bits-xor zero a b p q = refl
shift_bits-xor (suc n) a b p q =
    ap (shift_bits n) (shift_bit-xor a b p q)
    ∙ shift_bits-xor n (shift_bit a) (shift_bit b) (shift_bit-IsWord a) (shift_bit-IsWord b)

-- `poly` is odd, so a shifted word tells whether its top digit was set: no two words have one shift.
shift_bit_inj_Top : (a b : ℕ) → Top a → Top b → shift_bit a ≡ shift_bit b → a ≡ b
shift_bit_inj_Top a b (low p) (low q) h = omega (arith, shift_bit-low a p, shift_bit-low b q)
shift_bit_inj_Top a b (high l p e) (low q) h = absurd (
    omega
      (arith, ap shift_bit e, shift_bit-high l p, shift_bit-low b q, bit_xor_digit (2 * l) poly))
shift_bit_inj_Top a b (low p) (high l q e) h = absurd (
    omega
      (arith, ap shift_bit e, shift_bit-high l q, shift_bit-low a p, bit_xor_digit (2 * l) poly))
shift_bit_inj_Top a b (high l p e) (high k q d) h =
    let x : bit_xor (2 * l) poly ≡ bit_xor (2 * k) poly =
      sym (shift_bit-high l p) ∙ ap shift_bit (sym e) ∙ h ∙ ap shift_bit d ∙ shift_bit-high k q in
    let y : 2 * l ≡ 2 * k =
      sym (bit_xor_cancel (2 * l) poly)
      ∙ ap (λ t. bit_xor t poly) x
      ∙ bit_xor_cancel (2 * k) poly in
    omega arith

pub shift_bits_inj : (n a b : ℕ) → IsWord a → IsWord b → shift_bits n a ≡ shift_bits n b → a ≡ b
unfolding shift_bits
shift_bits_inj zero a b p q h = h
shift_bits_inj (suc n) a b p q h =
    shift_bit_inj_Top a b (top a p) (top b q)
      (shift_bits_inj n (shift_bit a) (shift_bit b) (shift_bit-IsWord a) (shift_bit-IsWord b) h)
