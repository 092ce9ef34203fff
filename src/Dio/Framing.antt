-- ===== src/Dio/Framing.antt =====
-- dio_link.py: the link's frames, as bytes and as bits on the wire.
use espstation.Common.{
  ℕ, zero, suc, ◌/◌, ◌%◌, ◌^◌, [], ◌∷◌, ◌++◌, ◌&&◌, leb, if◌then◌else◌, Bytes, length, Result, ok,
  err,
}
use espstation.Dio.Crc8.{crc8}

abbrev pub sync : ℕ
sync = 0xaa

abbrev pub max_payload : ℕ
max_payload = 32

-- The `ValueError` of a payload whose length is out of range.
pub data LengthError : Type 0 where
  bad_length : ℕ → LengthError

unfoldable pub build_frame : Bytes → Result LengthError Bytes
build_frame payload =
    let n = length payload in
    let body = n ∷ payload in
    if leb 1 n && leb n max_payload then ok (sync ∷ body ++ crc8 body ∷ []) else err (bad_length n)

-- The low `n` digits of a byte, the highest first.
abbrev pub bits_from : ℕ → ℕ → Bytes
bits_from zero byte = []
bits_from (suc n) byte = byte / 2 ^ n % 2 ∷ bits_from n byte

unfoldable pub frame_to_bits : Bytes → Bytes
frame_to_bits [] = []
frame_to_bits (byte ∷ frame) = bits_from 8 byte ++ frame_to_bits frame
