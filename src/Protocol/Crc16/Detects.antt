-- ===== src/Protocol/Crc16/Detects.antt =====
-- crc16.py: what the checksum tells apart, and how it goes on over chunks.
use espstation.Common.{
  ℕ, ◌*◌, ◌≡◌, ◌≢◌, refl, sym, ap, ◌∙◌, arith, [], ◌∷◌, ◌++◌, bit_xor, Bytes, IsByte, All,
  All-append,
}
use espstation.Common.Bits.{bit_xor_comm, bit_xor_cancel, bit_xor-lt}
use espstation.Protocol.Crc16.{crc16_ccitt_false}
use espstation.Protocol.Crc16.Linear.{IsWord, shift_bits_inj}
use espstation.Protocol.Crc16.Reference.{
  shift_in, shift_in_all, shift_in-IsWord, shift_in_all-IsWord, crc16_ccitt_false-shift_in_all,
}

module _ (c d x y : ℕ) (p : IsWord c) (q : IsWord d) (a : IsByte x) (b : IsByte y) where
  same_mixed : shift_in c x ≡ shift_in d y → bit_xor c (x * 256) ≡ bit_xor d (y * 256)
  unfolding shift_in
  same_mixed h =
      shift_bits_inj 8 (bit_xor c (x * 256)) (bit_xor d (y * 256))
        (bit_xor-lt 16 c (x * 256) p (omega arith)) (bit_xor-lt 16 d (y * 256) q (omega arith)) h

shift_in_inj_state :
    (c d x : ℕ) → IsWord c → IsWord d → IsByte x → shift_in c x ≡ shift_in d x → c ≡ d
shift_in_inj_state c d x p q a h =
    sym (bit_xor_cancel c (x * 256))
    ∙ ap (λ t. bit_xor t (x * 256)) (same_mixed c d x x p q a a h)
    ∙ bit_xor_cancel d (x * 256)

shift_in_inj_byte :
    (c x y : ℕ) → IsWord c → IsByte x → IsByte y → shift_in c x ≡ shift_in c y → x ≡ y
shift_in_inj_byte c x y p a b h =
    let mixed : bit_xor (x * 256) c ≡ bit_xor (y * 256) c =
      bit_xor_comm (x * 256) c ∙ same_mixed c c x y p p a b h ∙ bit_xor_comm c (y * 256) in
    let e : x * 256 ≡ y * 256 =
      sym (bit_xor_cancel (x * 256) c) ∙ ap (λ t. bit_xor t c) mixed ∙ bit_xor_cancel (y * 256) c in
    omega arith

shift_in_all_inj :
    (bytes : Bytes) (c d : ℕ)
    → All IsByte bytes
    → IsWord c
    → IsWord d
    → shift_in_all bytes c ≡ shift_in_all bytes d
    → c ≡ d
unfolding shift_in_all
shift_in_all_inj [] c d h p q e = e
shift_in_all_inj (x ∷ bytes) c d (b, h) p q e = shift_in_inj_state c d x p q b (
    shift_in_all_inj bytes (shift_in c x) (shift_in d x) h (shift_in-IsWord c x p b)
      (shift_in-IsWord d x q b) e)

shift_in_all-append :
    (xs ys : Bytes) (c : ℕ) → shift_in_all (xs ++ ys) c ≡ shift_in_all ys (shift_in_all xs c)
unfolding shift_in_all
shift_in_all-append [] ys c = refl
shift_in_all-append (x ∷ xs) ys c = shift_in_all-append xs ys (shift_in c x)

-- A checksum that is seeded with the checksum of a first chunk goes on to that of the whole.
pub crc16_ccitt_false-append :
    (xs ys : Bytes) (crc : ℕ)
    → All IsByte xs
    → All IsByte ys
    → IsWord crc
    → crc16_ccitt_false (xs ++ ys) crc ≡ crc16_ccitt_false ys (crc16_ccitt_false xs crc)
crc16_ccitt_false-append xs ys crc h k c =
    crc16_ccitt_false-shift_in_all (xs ++ ys) crc (All-append IsByte xs ys h k) c
    ∙ shift_in_all-append xs ys crc
    ∙ sym
        (crc16_ccitt_false-shift_in_all ys (shift_in_all xs crc) k (shift_in_all-IsWord xs crc h c))
    ∙ ap (crc16_ccitt_false ys) (sym (crc16_ccitt_false-shift_in_all xs crc h c))

-- Two byte strings that differ in one byte have different checksums.
pub crc16_ccitt_false_detects :
    (front back : Bytes) (x y crc : ℕ)
    → All IsByte front
    → All IsByte back
    → IsByte x
    → IsByte y
    → IsWord crc
    → x ≢ y
    → crc16_ccitt_false (front ++ x ∷ back) crc ≢ crc16_ccitt_false (front ++ y ∷ back) crc
crc16_ccitt_false_detects front back x y crc hf hb hx hy c ne e = ne (
    shift_in_inj_byte seed x y w hx hy (
      shift_in_all_inj back (shift_in seed x) (shift_in seed y) hb (shift_in-IsWord seed x w hx)
        (shift_in-IsWord seed y w hy) (unfold shift_in_all in bits)))
  where
    seed : ℕ
    seed = shift_in_all front crc

    w : IsWord seed
    w = shift_in_all-IsWord front crc hf c

    split :
        (z : ℕ)
        → IsByte z
        → crc16_ccitt_false (front ++ z ∷ back) crc ≡ shift_in_all (z ∷ back) seed
    split z hz =
        crc16_ccitt_false-shift_in_all (front ++ z ∷ back) crc
          (All-append IsByte front (z ∷ back) hf (hz, hb)) c
        ∙ shift_in_all-append front (z ∷ back) crc

    bits : shift_in_all (x ∷ back) seed ≡ shift_in_all (y ∷ back) seed
    bits = sym (split x hx) ∙ e ∙ split y hy
