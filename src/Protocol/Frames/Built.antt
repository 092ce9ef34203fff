-- ===== src/Protocol/Frames/Built.antt =====
-- frames.py: the frames that the program sends, and their serial blocks.
use espstation.Common.{
  ◌+◌, ◌%◌, ◌≤◌, ◌<◌, ◌≡◌, ◌≢◌, refl, sym, ap, ◌∙◌, arith, [], ◌∷◌, ◌++◌, Bytes, IsByte, length,
  length-append, All, All-append, ok, err, ok_inj, Bool-cases, inl, inr, ltb,
}
use espstation.Protocol.Cobs
use espstation.Protocol.Cobs.Delivered.{delivered, delivered-front, lost_zeros, length-delivered}
use espstation.Protocol.Cobs.RoundTrip.{encode_shape, decode-encode}
use espstation.Protocol.Cobs.Joined.{IsStuffed}
use espstation.Protocol.Crc16.{init, crc16_ccitt_false}
use espstation.Protocol.Crc16.Reference.{crc16_ccitt_false-IsWord}
use espstation.Protocol.Packed.{le16, le16-IsByte}
use espstation.Protocol.Frames.{
  Frame, FrameError, bad_length, too_short, encode, frame_encode, encode_cobs, frame_encode_cobs,
  parse,
}
use espstation.Protocol.Frames.Parts.{
  Head, head_bytes, len_field, parse-checked, last_two, parse-short,
}
use espstation.Protocol.Frames.Parse.{head_of, sealed, encode-sealed, parse-encode}

-- The ranges of the fields, as the program fills them.
pub record IsSendable (f : Frame) : Type 0 where
  pub type_fits : f.type < 256
  pub node_fits : f.node < 0x10000
  pub seq_fits : f.seq < 0x10000
  pub payload_fits : length f.payload ≤ 1024
  pub payload_bytes : All IsByte f.payload
  pub current : f.ver ≡ 1

abbrev head : Frame → Head
head f = head_of 1 f.type f.node f.seq (length f.payload)

-- The body that is built of a frame in these ranges.
abbrev pub body_of : Frame → Bytes
body_of f = sealed (head f) f.payload

-- A header of the current version in front of a payload of another length than it says.
parse_other_length :
    (h : Head) (rest : Bytes)
    → h.ver ≡ 1
    → length rest ≢ len_field h + 2
    → (e : FrameError) × (parse (head_bytes h ++ rest) ≡ err e)
parse_other_length h rest one ne = elim (Bool-cases (ltb (length rest) 2)) [
  | inl short ↦ (
    too_short (length rest + 8),
    parse-short (head_bytes h ++ rest) (ground arith) ∙ ap (λ n. err (too_short n)) (omega arith),
  )
  | inr long ↦
      let (k, a, b, e) = last_two rest (ground arith) in
      let size : length rest ≡ length k + 2 =
        ap length e ∙ length-append k (a ∷ b ∷ []) ∙ omega arith in
      (
        bad_length (len_field h) (length k),
        ap (λ r. parse (head_bytes h ++ r)) e ∙ parse-checked h k a b ∙ ground arith,
      )
]

module _ (f : Frame) (s : IsSendable f) where
  pub frame_encode-body_of : frame_encode f ≡ ok (body_of f)
  unfolding frame_encode
  frame_encode-body_of =
      let n : f.node % 0x10000 ≡ f.node = omega (arith, s.node_fits) in
      let q : f.seq % 0x10000 ≡ f.seq = omega (arith, s.seq_fits) in
      encode-sealed f.type f.node f.seq f.payload f.ver s.payload_fits s.type_fits
        (omega (arith, s.current))
      ∙ rw (n, q, s.current)

  pub length-body_of : length (body_of f) ≡ length f.payload + 10
  length-body_of = omega (
    arith,
    length-append f.payload (le16 (crc16_ccitt_false (head_bytes (head f) ++ f.payload) init)),
  )

  pub body_of-IsByte : All IsByte (body_of f)
  body_of-IsByte =
      All-append IsByte (head_bytes (head f))
        (f.payload ++ le16 (crc16_ccitt_false (head_bytes (head f) ++ f.payload) init))
        (omega (arith, s.type_fits, s.node_fits, s.seq_fits, s.payload_fits))
        (All-append IsByte f.payload
          (le16 (crc16_ccitt_false (head_bytes (head f) ++ f.payload) init)) s.payload_bytes
          (le16-IsByte _ (crc16_ccitt_false-IsWord (head_bytes (head f) ++ f.payload) init)))

  pub parse-body_of : parse (body_of f) ≡ ok f
  parse-body_of =
      let (b, e, _, p) = parse-encode f.type f.node f.seq f.payload s.type_fits s.payload_fits in
      let same : b ≡ body_of f = ok_inj b (body_of f) (
        sym e
        ∙ ap (encode f.type f.node f.seq f.payload) (sym s.current)
        ∙ unfold frame_encode in frame_encode-body_of) in
      let n : f.node % 0x10000 ≡ f.node = omega (arith, s.node_fits) in
      let q : f.seq % 0x10000 ≡ f.seq = omega (arith, s.seq_fits) in
      ap parse (sym same) ∙ p ∙ rw (n, q, ← s.current)

  -- The serial block: bytes from 1 to 255, which decode to what COBS delivers of the body, and the
  -- delimiter.
  pub frame_encode_cobs-block :
      (enc : Bytes) × (frame_encode_cobs f ≡ ok (enc ++ 0 ∷ []))
      × All IsStuffed enc
      × (0 < length enc)
      × (Cobs.decode enc ≡ ok (delivered 0 (body_of f)))
  unfolding frame_encode_cobs encode_cobs frame_encode
  frame_encode_cobs-block =
      let (enc, e, stuffed, pos, _) = encode_shape (body_of f) body_of-IsByte in
      (
        enc,
        rw frame_encode-body_of (rw e),
        stuffed,
        pos,
        rw e at (decode-encode (body_of f) body_of-IsByte),
      )

  -- A body that lost a zero on the way is refused.
  pub parse-lossy :
      0 < lost_zeros 0 (body_of f) → (e : FrameError) × (parse (delivered 0 (body_of f)) ≡ err e)
  parse-lossy lossy =
      let h : Head = head f in
      let rest : Bytes = f.payload ++ le16 (crc16_ccitt_false (head_bytes h ++ f.payload) init) in
      let (j, e) = delivered-front 0 (head_bytes h) rest (omega arith) in
      let (x, p) =
        parse_other_length h (delivered j rest) refl
          (omega (arith, length-body_of, ap (length {0}) e, length-delivered 0 (body_of f))) in
      (x, ap parse e ∙ p)
