-- ===== src/Tests/Codec.antt =====
-- gateway/espstation_gateway/protocol: the codec at concrete inputs.
use espstation.Common.{
  ◌+◌, ◌%◌, ◌/◌, ◌≤◌, ◌<◌, ◌≡◌, ◌≢◌, ◌↔◌, refl, arith, [], ◌∷◌, Bytes, length, All, ok, err, stuck,
  ◌>>=◌,
}
use espstation.Protocol.Cobs
use espstation.Protocol.Cobs.Delivered.{lost_zeros}
use espstation.Protocol.Cobs.Joined.{IsStuffed}
use espstation.Protocol.Cobs.RoundTrip.{encode_shape, decode-encode_iff}
use espstation.Protocol.Cobs.Decode.{decode-ne-stuck}
use espstation.Protocol.Crc16.{crc16_ccitt_false, init}
use espstation.Protocol.Crc16.Reference.{shift_in_all, crc16_ccitt_false-shift_in_all}
use espstation.Protocol.Frames.{Frame, FrameError, encode, frame_encode, parse, wire_version}
use espstation.Protocol.Frames.Parse.{parse-encode, encode-parse}
use espstation.Protocol.Frames.Corrupted.{parse_corrupted}

abbrev three : Bytes
three = 1 ∷ 0 ∷ 2 ∷ []

encode-three : Cobs.encode three ≡ ok (2 ∷ 1 ∷ 2 ∷ 2 ∷ [])
unfolding Cobs.encode
encode-three = refl

decode-three : Cobs.decode (2 ∷ 1 ∷ 2 ∷ 2 ∷ []) ≡ ok three
unfolding Cobs.decode
decode-three = refl

encode_shape_example :
    (enc : Bytes) × (Cobs.encode three ≡ ok enc)
    × All IsStuffed enc
    × (0 < length enc)
    × (length enc ≤ 3 + 3 / 254 + 1)
encode_shape_example = encode_shape three (omega arith)

decode-encode_iff_example :
    ((Cobs.encode three >>= Cobs.decode) ≡ ok three) ↔ (lost_zeros 0 three ≡ 0)
decode-encode_iff_example = decode-encode_iff three (omega arith)

decode-ne-stuck_example : Cobs.decode three ≢ stuck
decode-ne-stuck_example = decode-ne-stuck three

-- "123456789", whose checksum is published with the algorithm.
abbrev digits_text : Bytes
digits_text = 49 ∷ 50 ∷ 51 ∷ 52 ∷ 53 ∷ 54 ∷ 55 ∷ 56 ∷ 57 ∷ []

crc16_ccitt_false-digits_text : crc16_ccitt_false digits_text init ≡ 0x29b1
unfolding crc16_ccitt_false
crc16_ccitt_false-digits_text = refl

crc16_ccitt_false-shift_in_all_example :
    crc16_ccitt_false digits_text init ≡ shift_in_all digits_text init
crc16_ccitt_false-shift_in_all_example =
    crc16_ccitt_false-shift_in_all digits_text init (omega arith) (omega arith)

abbrev small_frame : Frame
small_frame = record { type = 2; node = 1; seq = 3; payload = three; ver = 1 }

abbrev small_body : Bytes
small_body = 1 ∷ 2 ∷ 1 ∷ 0 ∷ 3 ∷ 0 ∷ 3 ∷ 0 ∷ 1 ∷ 0 ∷ 2 ∷ 205 ∷ 24 ∷ []

frame_encode-small_frame : frame_encode small_frame ≡ ok small_body
unfolding frame_encode encode crc16_ccitt_false
frame_encode-small_frame = refl

parse-small_body : parse small_body ≡ ok small_frame
unfolding parse crc16_ccitt_false
parse-small_body = refl

parse-encode_example :
    (body : Bytes) × (encode 2 0x10001 3 three wire_version ≡ ok body)
    × (length body ≡ 3 + 10)
    × (parse body
        ≡ ok (record {
          type = 2;
          node = 0x10001 % 0x10000;
          seq = 3 % 0x10000;
          payload = three;
          ver = wire_version;
        }))
parse-encode_example = parse-encode 2 0x10001 3 three (omega arith) (omega arith)

encode-parse_example : frame_encode small_frame ≡ ok small_body
encode-parse_example =
    encode-parse small_body small_frame (omega arith) parse-small_body (omega arith)

parse_corrupted_example :
    (e : FrameError) × (parse (1 ∷ 2 ∷ 9 ∷ 0 ∷ 3 ∷ 0 ∷ 3 ∷ 0 ∷ 1 ∷ 0 ∷ 2 ∷ 205 ∷ 24 ∷ []) ≡ err e)
parse_corrupted_example =
    parse_corrupted (1 ∷ 2 ∷ []) (0 ∷ 3 ∷ 0 ∷ 3 ∷ 0 ∷ 1 ∷ 0 ∷ 2 ∷ 205 ∷ 24 ∷ []) 1 9 small_frame
      (omega arith) (omega arith) (omega arith) parse-small_body
