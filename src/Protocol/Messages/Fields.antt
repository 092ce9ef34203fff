-- ===== src/Protocol/Messages/Fields.antt =====
-- What messages.py uses of Python's `struct`: little-endian fields, packed and unpacked in order.
use espstation.Common.{
  ℕ, zero, suc, ◌+◌, ◌-◌, ◌*◌, ◌/◌, ◌%◌, ◌^◌, ◌<◌, ◌≡◌, refl, ap, arith, List, [], ◌∷◌, ◌++◌,
  length-append, Bool, true, not, ◌&&◌, ltb, if◌then◌else◌, Bytes, All, length, drop, Result, ok,
  ◌>>◌, raise_if,
}
use native.Mathlib.Nat.{pow-suc}

-- `struct.error`.
pub data PackError : Type 0 where
  out_of_range : PackError

-- Integers, as natural numbers and the negative ones: `negsuc n` is -1 - n.
pub data ℤ : Type 0 where
  pos negsuc : ℕ → ℤ

unfoldable pub to_le : ℕ → ℕ → Bytes
to_le zero n = []
to_le (suc k) n = n % 256 ∷ to_le k (n / 256)

unfoldable pub from_le : ℕ → Bytes → ℕ
from_le zero bytes = 0
from_le (suc k) [] = 0
from_le (suc k) (b ∷ bytes) = b + 256 * from_le k bytes

-- A field is its width in bytes and its value.
abbrev pub fits : List (ℕ × ℕ) → Bool
fits [] = true
fits ((k, n) ∷ fields) = ltb n (256 ^ k) && fits fields

abbrev pub packed : List (ℕ × ℕ) → Bytes
packed [] = []
packed ((k, n) ∷ fields) = to_le k n ++ packed fields

unfoldable pub pack : List (ℕ × ℕ) → Result PackError Bytes
pack fields = do raise_if (not (fits fields)) out_of_range; ok (packed fields)

-- A signed byte, in two's complement; outside -128 to 127 it becomes a value that does not fit.
abbrev pub i8_value : ℤ → ℕ
i8_value (pos n) = if ltb n 128 then n else 256
i8_value (negsuc n) = if ltb n 128 then 255 - n else 256

-- The next field of a buffer, and the bytes behind it.
unfoldable pub read : ℕ → Bytes → ℕ × Bytes
read k bytes = (from_le k bytes, drop k bytes)

abbrev pub signed : ℕ → ℤ
signed b = if ltb b 128 then pos b else negsuc (255 - b)

unfoldable pub read_i8 : Bytes → ℤ × Bytes
read_i8 bytes = let (b, rest) = read 1 bytes in (signed b, rest)

from_le-to_le : (k n : ℕ) (rest : Bytes) → n < 256 ^ k → from_le k (to_le k n ++ rest) ≡ n
unfolding from_le to_le
from_le-to_le zero n rest h = omega arith
from_le-to_le (suc k) n rest h =
    omega (arith, from_le-to_le k (n / 256) rest (omega (arith, pow-suc 256 k)))

drop-to_le : (k n : ℕ) (rest : Bytes) → drop k (to_le k n ++ rest) ≡ rest
unfolding to_le
drop-to_le zero n rest = refl
drop-to_le (suc k) n rest = drop-to_le k (n / 256) rest

pub length-to_le : (k n : ℕ) → length (to_le k n) ≡ k
unfolding to_le
length-to_le zero n = refl
length-to_le (suc k) n = ap suc (length-to_le k (n / 256))

-- A field that fits is read back, and what is behind it is left.
pub read-to_le : (k n : ℕ) (rest : Bytes) → n < 256 ^ k → read k (to_le k n ++ rest) ≡ (n, rest)
unfolding read
read-to_le k n rest h = rw (from_le-to_le k n rest h) (rw (drop-to_le k n rest) refl)

abbrev pub widths : List (ℕ × ℕ) → ℕ
widths [] = 0
widths ((k, n) ∷ fields) = k + widths fields

pub length-packed : (fields : List (ℕ × ℕ)) → length (packed fields) ≡ widths fields
length-packed [] = refl
length-packed ((k, n) ∷ fields) =
    omega (arith, length-append (to_le k n) (packed fields), length-to_le k n, length-packed fields)

abbrev pub IsField : ℕ × ℕ → Type 0
IsField (k, n) = n < 256 ^ k

fits-IsField : (fields : List (ℕ × ℕ)) → All IsField fields → fits fields ≡ true
fits-IsField [] h = refl
fits-IsField ((k, n) ∷ fields) (p, h) = ground (arith, fits-IsField fields h)

-- Fields that all fit are packed.
pub pack-fits : (fields : List (ℕ × ℕ)) → All IsField fields → pack fields ≡ ok (packed fields)
unfolding pack
pack-fits fields h = rw (fits-IsField fields h) refl

-- The range of a signed byte.
abbrev pub IsI8 : ℤ → Type 0
IsI8 (pos n) = n < 128
IsI8 (negsuc n) = n < 128

pub i8_value-fits : (z : ℤ) → IsI8 z → i8_value z < 256
i8_value-fits (pos n) h = ground arith
i8_value-fits (negsuc n) h = ground arith

pub signed-i8_value : (z : ℤ) → IsI8 z → signed (i8_value z) ≡ z
signed-i8_value (pos n) h = ground arith
signed-i8_value (negsuc n) h = ground arith
