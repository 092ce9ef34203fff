-- ===== src/Transports/LengthPrefix/Delivery.antt =====
-- tcp.py: what comes out of the length-prefixed bodies of frames.
use espstation.Common.{
  ℕ, suc, ◌+◌, ◌≤◌, ◌<◌, ◌≡◌, refl, sym, ap, ◌∙◌, subst, arith, List, [], ◌∷◌, ◌++◌, map, Bytes,
  length, length-append, take, drop, take-length-append, drop-length-append, All, Result, ok, err,
  stuck, ◌>>=◌, ltb, false,
}
use espstation.Protocol.Packed.{be16, u16_be}
use espstation.Protocol.Frames.{Frame, BuildError, frame_encode}
use espstation.Protocol.Frames.Built.{
  IsSendable, body_of, frame_encode-body_of, length-body_of, parse-body_of,
}
use espstation.Protocol.Streaming.{Event, frame, parse_or_raw}
use espstation.Protocol.Streaming.Chunks.{flatten}
use espstation.Transports.LengthPrefix.{PrefixError, encode_length_prefixed, feed, feed_all}
use espstation.Transports.LengthPrefix.Steps.{
  Drains, short_prefix, take_body, event_of, feed-Drains,
}
use espstation.Transports.LengthPrefix.Chunks.{feed_all-feed_prefixed}

u16_be-be16 : (n : ℕ) (rest : Bytes) → n < 65536 → u16_be (be16 n ++ rest) ≡ n
u16_be-be16 n rest h = omega arith

Drains-body :
    (body more : Bytes) {rest : Bytes} {events : List Event}
    → length body ≤ 0xffff
    → Drains more events rest
    → Drains (be16 (length body) ++ body ++ more) (event_of body ∷ events) rest
Drains-body body more {rest} {events} h d =
    let buf : Bytes = be16 (length body) ++ body ++ more in
    let len : u16_be buf ≡ length body = u16_be-be16 (length body) (body ++ more) (omega arith) in
    let cut : take (u16_be buf) (drop 2 buf) ≡ body =
      ap (λ n. take n (body ++ more)) len ∙ take-length-append body more in
    let two : 2 + u16_be buf ≡ suc (suc (length body)) = omega (arith, len) in
    let behind : drop (2 + u16_be buf) buf ≡ more =
      ap (λ n. drop n buf) two ∙ drop-length-append body more in
    subst (λ b. Drains buf (event_of b ∷ events) rest) cut
      (take_body (omega arith) (omega (arith, len, length-append body more))
        (subst (λ b. Drains b events rest) (sym behind) d))

-- `encode_length_prefixed` of a frame's body; the two calls raise different errors.
pub data SendError : Type 0 where
  not_built : BuildError → SendError
  not_prefixed : PrefixError → SendError

abbrev pub prefixed : Result PrefixError Bytes → Result SendError Bytes
prefixed (ok bytes) = ok bytes
prefixed (err e) = err (not_prefixed e)
prefixed stuck = stuck

abbrev pub sent_bytes : Result BuildError Bytes → Result SendError Bytes
sent_bytes (ok body) = prefixed (encode_length_prefixed body)
sent_bytes (err e) = err (not_built e)
sent_bytes stuck = stuck

-- What the sender writes for frame after frame.
unfoldable pub send_all : List Frame → Result SendError Bytes
send_all [] = ok []
send_all (f ∷ fs) = do bytes ← sent_bytes (frame_encode f); rest ← send_all fs; ok (bytes ++ rest)

encode_length_prefixed-fits :
    (body : Bytes)
    → length body ≤ 0xffff
    → encode_length_prefixed body ≡ ok (be16 (length body) ++ body)
unfolding encode_length_prefixed
encode_length_prefixed-fits body h =
    let fits : ltb 0xffff (length body) ≡ false = ground arith in rw fits refl

Drains-send_all :
    (fs : List Frame)
    → All IsSendable fs
    → (wire : Bytes) × (send_all fs ≡ ok wire) × Drains wire (map frame fs) []
unfolding send_all parse_or_raw
Drains-send_all [] h = ([], refl, short_prefix (omega arith))
Drains-send_all (f ∷ fs) (s, h) =
    let (wire, sent, d) = Drains-send_all fs h in
    let body : Bytes = body_of f in
    let fits : length body ≤ 0xffff = omega (arith, length-body_of f s, s.payload_fits) in
    let intact : event_of body ≡ frame f = ap (parse_or_raw body) (parse-body_of f s) in
    (
      be16 (length body) ++ body ++ wire,
      rw (frame_encode-body_of f s) (rw (encode_length_prefixed-fits body fits) (rw sent refl)),
      subst (λ e. Drains (be16 (length body) ++ body ++ wire) (e ∷ map frame fs) []) intact
          (Drains-body body wire fits d),
    )

-- Any number of frames with fields in range and payloads of up to 1024 bytes can be sent, and in
-- whatever chunks the bytes arrive, a fresh decoder reports exactly these frames, in order, and no
-- byte is left.
pub feed_all-send_prefixed :
    (fs : List Frame)
    → All IsSendable fs
    → (wire : Bytes) × (send_all fs ≡ ok wire)
      × ((chunks : List Bytes) → flatten chunks ≡ wire → feed_all [] chunks ≡ ok (map frame fs, []))
feed_all-send_prefixed fs h =
    let (wire, sent, d) = Drains-send_all fs h in
    (
      wire,
      sent,
      λ chunks cut. feed_all-feed_prefixed chunks ∙ ap (feed []) cut ∙ feed-Drains [] wire d,
    )
