-- ===== src/Protocol/Packed.antt =====
-- What the code uses of Python's `struct`: little-endian and big-endian integers as bytes.
use espstation.Common.{ℕ, ◌+◌, ◌*◌, ◌/◌, ◌%◌, ◌<◌, arith, [], ◌∷◌, Bytes, IsByte, All}

-- `<H` of a number below 65536.
abbrev pub le16 : ℕ → Bytes
le16 n = n % 256 ∷ n / 256 ∷ []

-- `<I` of a number below 2 ^ 32, and `<Q` of one below 2 ^ 64.
abbrev pub le32 : ℕ → Bytes
le32 n = n % 256 ∷ n / 256 % 256 ∷ n / 65536 % 256 ∷ n / 16777216 ∷ []

-- `>H` of a number below 65536.
abbrev pub be16 : ℕ → Bytes
be16 n = n / 256 ∷ n % 256 ∷ []

-- The number at the front of a buffer; the code checks the buffer's length before.
abbrev pub u8 : Bytes → ℕ
u8 (a ∷ _) = a
u8 [] = 0

abbrev pub u16_le : Bytes → ℕ
u16_le (a ∷ b ∷ _) = a + 256 * b
u16_le _ = 0

abbrev pub u16_be : Bytes → ℕ
u16_be (a ∷ b ∷ _) = 256 * a + b
u16_be _ = 0

abbrev pub u32_le : Bytes → ℕ
u32_le (a ∷ b ∷ c ∷ d ∷ _) = a + 256 * b + 65536 * c + 16777216 * d
u32_le _ = 0

pub le16-IsByte : (n : ℕ) → n < 65536 → All IsByte (le16 n)
le16-IsByte n h = omega arith
