-- ===== src/Protocol/Cobs/RoundTrip.antt =====
-- cobs.py: what `decode` makes of what `encode` wrote.
use espstation.Common.{
  ◌+◌, ◌/◌, ◌≤◌, ◌<◌, ◌≡◌, ◌↔◌, sym, ap, ◌∙◌, arith, [], ◌∷◌, ◌++◌, Bytes, IsByte, length, All,
  All-append, ok, ◌>>=◌, ok_inj,
}
use espstation.Protocol.Cobs.{encode, decode}
use espstation.Protocol.Cobs.Delivered.{
  IsNonZero, delivered, lost_zeros, delivered_iff, delivered-append, lost_zeros-short,
  delivered-zero,
}
use espstation.Protocol.Cobs.Joined.{IsStuffed, Encodes}
use espstation.Protocol.Cobs.Rounds.{encode-Encodes}

-- Encoding ends without an error on every byte string; the result holds bytes from 1 to 255 only,
-- and one more than the data for each 254 bytes and one, at most.
pub encode_shape :
    (xs : Bytes)
    → All IsByte xs
    → (enc : Bytes) × (encode xs ≡ ok enc)
      × All IsStuffed enc
      × (0 < length enc)
      × (length enc ≤ length xs + length xs / 254 + 1)
encode_shape xs b = let (enc, e, h) = encode-Encodes xs b in (enc, e, h.stuffed, h.starts, h.short)

decode-Encodes : (xs enc : Bytes) → Encodes xs enc → decode enc ≡ ok (delivered 0 xs)
unfolding decode
decode-Encodes xs [] h = absurd (omega (arith, h.starts))
decode-Encodes xs (c ∷ enc) h = h.decodes (length (c ∷ enc)) [] (omega arith)

-- Decoding what was encoded ends without an error, and gives the data without those zeros that
-- directly follow a full block of 254 other bytes.
pub decode-encode : (xs : Bytes) → All IsByte xs → (encode xs >>= decode) ≡ ok (delivered 0 xs)
decode-encode xs b = let (enc, e, h) = encode-Encodes xs b in rw e (decode-Encodes xs enc h)

-- Encoding and then decoding gives the data back exactly when it holds no zero that directly
-- follows a full block of 254 other bytes.
pub decode-encode_iff :
    (xs : Bytes) → All IsByte xs → ((encode xs >>= decode) ≡ ok xs) ↔ (lost_zeros 0 xs ≡ 0)
decode-encode_iff xs b = (
  λ e. (delivered_iff xs).0 (ok_inj _ _ (sym (decode-encode xs b) ∙ e)),
  λ z. decode-encode xs b ∙ ap ok ((delivered_iff xs).1 z),
)

-- Data of at most 254 bytes is given back by encoding and then decoding it.
pub decode-encode_short :
    (xs : Bytes) → All IsByte xs → length xs ≤ 254 → (encode xs >>= decode) ≡ ok xs
decode-encode_short xs b h = (decode-encode_iff xs b).1 (lost_zeros-short xs h)

-- Data that begins with 254 non-zero bytes and then a zero is given back without that zero, by
-- encoding and then decoding it.
pub decode-encode_drops_zero :
    (run rest : Bytes)
    → All IsByte run
    → All IsNonZero run
    → length run ≡ 254
    → All IsByte rest
    → (encode (run ++ 0 ∷ rest) >>= decode) ≡ ok (run ++ delivered 0 rest)
decode-encode_drops_zero run rest b z n b' =
    decode-encode (run ++ 0 ∷ rest) (All-append IsByte run (0 ∷ rest) b (omega arith, b'))
    ∙ ap ok (
        delivered-append 0 run (0 ∷ rest) z (omega arith)
        ∙ ap (λ d. run ++ d)
            (ap (λ k. delivered k (0 ∷ rest)) (omega arith) ∙ delivered-zero 254 rest))
