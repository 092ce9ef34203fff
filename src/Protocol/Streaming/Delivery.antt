-- ===== src/Protocol/Streaming/Delivery.antt =====
-- frames.py, `StreamingDecoder`: what comes out of the serial blocks of frames.
use espstation.Common.{
  ◌≤◌, ◌<◌, ◌≡◌, refl, sym, ap, ◌∙◌, arith, List, [], ◌∷◌, ◌++◌, append_assoc, map, Bytes, length,
  All, Result, ok, ◌>>=◌, ok_inj, ◌==◌, Bool-cases, inl, inr,
}
use espstation.Protocol.Cobs
use espstation.Protocol.Cobs.Delivered.{delivered, lost_zeros, delivered_iff, lost_zeros-short}
use espstation.Protocol.Cobs.Joined.{IsStuffed}
use espstation.Protocol.Frames.{Frame, BuildError, frame_encode_cobs, parse}
use espstation.Protocol.Frames.Built.{
  IsSendable, body_of, length-body_of, parse-body_of, frame_encode_cobs-block, parse-lossy,
}
use espstation.Protocol.Streaming.{
  Event, frame, raw, parse_or_raw, decoded_or_raw, decode_block, block_events, feed, feed_all,
}
use espstation.Protocol.Streaming.Scan.{scan, IsNonZero, scan-block, scan-append, feed-scan}
use espstation.Protocol.Streaming.Chunks.{flatten, feed_all-feed}

All-NonZero : (xs : Bytes) → All IsStuffed xs → All IsNonZero xs
All-NonZero [] h = tt
All-NonZero (x ∷ xs) (p, h) = (omega arith, All-NonZero xs h)

-- One block and its delimiter.
scan_one :
    (enc : Bytes)
    → All IsStuffed enc
    → 0 < length enc
    → scan [] (enc ++ 0 ∷ []) ≡ (decode_block enc ∷ [], [])
unfolding block_events
scan_one [] h p = absurd (omega arith)
scan_one (x ∷ xs) h p = scan-block [] (x ∷ xs) (0 ∷ []) (All-NonZero (x ∷ xs) h)

decode_block-body :
    (enc body : Bytes)
    → Cobs.decode enc ≡ ok body
    → decode_block enc ≡ parse_or_raw enc (parse body)
unfolding decode_block decoded_or_raw
decode_block-body enc body e = rw e

module _ (f : Frame) (s : IsSendable f) where
  abbrev block_of : Bytes
  block_of = (frame_encode_cobs-block f s).0

  decode_block-kept : lost_zeros 0 (body_of f) ≡ 0 → decode_block block_of ≡ frame f
  unfolding parse_or_raw
  decode_block-kept none_lost =
      let (enc, _, _, _, d) = frame_encode_cobs-block f s in
      decode_block-body enc (delivered 0 (body_of f)) d
      ∙ ap (λ b. parse_or_raw enc (parse b)) ((delivered_iff (body_of f)).1 none_lost)
      ∙ ap (parse_or_raw enc) (parse-body_of f s)

  -- A frame whose body holds a zero directly behind a full COBS block is built without an error, but
  -- a fresh decoder reports its serial block as raw console bytes and no frame.
  pub feed_lossy :
      0 < lost_zeros 0 (body_of f)
      → (enc : Bytes) × (frame_encode_cobs f ≡ ok (enc ++ 0 ∷ []))
        × (feed [] (enc ++ 0 ∷ []) ≡ ok (raw enc ∷ [], []))
  unfolding parse_or_raw
  feed_lossy lossy =
      let (enc, e, stuffed, pos, d) = frame_encode_cobs-block f s in
      let (x, refused) = parse-lossy f s lossy in
      (
        enc,
        e,
        feed-scan [] (enc ++ 0 ∷ [])
            ∙ ap ok (scan_one enc stuffed pos)
            ∙ ap (λ v. ok (v ∷ [], []))
                (decode_block-body enc (delivered 0 (body_of f)) d ∙ ap (parse_or_raw enc) refused),
      )

-- Behind a delimiter no block is open.
closed : (block noise : Bytes) → (scan block (noise ++ 0 ∷ [])).1 ≡ []
closed block [] = refl
closed block (x ∷ noise) = elim (Bool-cases (x == 0)) [
  | inl z ↦ rw z (closed [] noise)
  | inr nz ↦ rw nz (closed (block ++ x ∷ []) noise)
]

-- What the sender writes for frame after frame.
unfoldable pub send_all : List Frame → Result BuildError Bytes
send_all [] = ok []
send_all (f ∷ fs) = do block ← frame_encode_cobs f; rest ← send_all fs; ok (block ++ rest)

-- Payloads that leave no room for a full COBS block, as in ESP-NOW frames.
pub record IsShort (f : Frame) : Type 0 where
  pub sendable : IsSendable f
  pub short : length f.payload ≤ 244

short-lossless : (f : Frame) → IsShort f → lost_zeros 0 (body_of f) ≡ 0
short-lossless f s =
    lost_zeros-short (body_of f) (omega (arith, length-body_of f s.sendable, s.short))

scan-send_all :
    (fs : List Frame)
    → All IsShort fs
    → (wire : Bytes) × (send_all fs ≡ ok wire) × (scan [] wire ≡ (map frame fs, []))
unfolding send_all
scan-send_all [] h = ([], refl, refl)
scan-send_all (f ∷ fs) (s, h) =
    let (wire, sent, seen) = scan-send_all fs h in
    let (enc, e, stuffed, pos, _) = frame_encode_cobs-block f s.sendable in
    (
      enc ++ 0 ∷ [] ++ wire,
      rw e (rw sent),
      scan-append [] (enc ++ 0 ∷ []) wire
          ∙ rw (scan_one enc stuffed pos)
              (rw (seen, decode_block-kept f s.sendable (short-lossless f s))),
    )

-- Frames with at most 244 payload bytes and fields in range are all built without an error.
pub send_all-ok : (fs : List Frame) → All IsShort fs → (wire : Bytes) × (send_all fs ≡ ok wire)
send_all-ok fs h = let (wire, sent, _) = scan-send_all fs h in (wire, sent)

-- A receiver that joins anywhere: after whatever bytes and a delimiter it reports exactly the frames
-- that were sent, in order and each once, behind the events that those first bytes alone give, in
-- whatever chunks the stream arrives. The frames have at most 244 payload bytes.
pub feed_all-send_all :
    (fs : List Frame) (noise wire : Bytes) (chunks : List Bytes)
    → All IsShort fs
    → send_all fs ≡ ok wire
    → flatten chunks ≡ noise ++ 0 ∷ wire
    → (before : List Event) × (feed [] (noise ++ 0 ∷ []) ≡ ok (before, []))
      × (feed_all [] chunks ≡ ok (before ++ map frame fs, []))
feed_all-send_all fs noise wire chunks h sent cut =
    let (wire', sent', seen) = scan-send_all fs h in
    let same : wire' ≡ wire = ok_inj wire' wire (sym sent' ∙ sent) in
    let first : Bytes = noise ++ 0 ∷ [] in
    (
      (scan [] first).0,
      feed-scan [] first ∙ ap (λ b. ok ((scan [] first).0, b)) (closed [] noise),
      feed_all-feed chunks
          ∙ feed-scan [] (flatten chunks)
          ∙ ap (λ x. ok (scan [] x)) (cut ∙ sym (append_assoc noise (0 ∷ []) wire))
          ∙ ap ok (scan-append [] first wire)
          ∙ rw (closed [] noise) (rw (← same) (rw seen)),
    )
