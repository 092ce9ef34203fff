-- ===== src/Dio/Receiver/Reception.antt =====
-- dio_link.py, `FrameRx`: what the receiver makes of the frames that `build_frame` builds.
use espstation.Common.{
  ℕ, zero, suc, ◌+◌, ◌≤◌, ◌<◌, ◌≡◌, ◌⊎◌, refl, sym, ap, ◌∙◌, arith, List, [], ◌∷◌, ◌++◌,
  append_assoc, some, true, false, ◌&&◌, ◌||◌, ◌==◌, ==_self, leb, ltb, if◌then◌else◌, Bytes,
  IsByte, length, length-append, replicate, All, map, Result, ◌>>=◌,
}
use espstation.Common.{ok as built}
use espstation.Dio.Crc8.{crc8, crc8-IsByte}
use espstation.Dio.Framing.{sync, LengthError, build_frame, bits_from, frame_to_bits}
use espstation.Dio.Receiver.{
  in_len, in_payload, in_crc, ok, crc_err, len_err, RxResult, fresh, take_byte, take_len,
  take_payload, take_crc, feed_bit, feed_bits,
}
use espstation.Dio.Receiver.Bits.{run_bits, feed_bits-run_bits, then_bits, between, run_bits-byte}

pub run_bits-sync :
    (rest : Bytes)
    → run_bits fresh (bits_from 8 sync ++ rest) ≡ run_bits (between in_len sync 0 []) rest
unfolding run_bits feed_bit
run_bits-sync rest = refl

run_bits-len :
    (n s : ℕ) (rest : Bytes)
    → 1 ≤ n
    → n ≤ 32
    → run_bits (between in_len s 0 []) (bits_from 8 n ++ rest)
      ≡ run_bits (between in_payload 0 n []) rest
unfolding take_byte take_len
run_bits-len n s rest lo hi =
    let fits : (n == 0 || ltb 32 n) ≡ false = ground arith in
    run_bits-byte in_len s 0 [] n rest tt (omega arith) ∙ rw fits

pub run_bits-len_err :
    (n s : ℕ) (rest : Bytes)
    → (n ≡ 0) ⊎ (32 < n)
    → IsByte n
    → run_bits (between in_len s 0 []) (bits_from 8 n ++ rest)
      ≡ then_bits (fresh, some (record { status = len_err; len = 0; payload = [] })) rest
unfolding take_byte take_len
run_bits-len_err n s rest bad b =
    let refused : (n == 0 || ltb 32 n) ≡ true = ground arith in
    run_bits-byte in_len s 0 [] n rest tt b ∙ rw refused

-- The payload's bytes, behind those of `front`.
run_bits-payload :
    (p front : Bytes) (x s n : ℕ) (rest : Bytes)
    → length front + length (x ∷ p) ≡ n
    → All IsByte (x ∷ p)
    → run_bits (between in_payload s n front) (frame_to_bits (x ∷ p) ++ rest)
      ≡ run_bits (between in_crc 0 n (front ++ x ∷ p)) rest
unfolding take_byte take_payload frame_to_bits
run_bits-payload [] front x s n rest e (b, _) =
    let full : (length (front ++ x ∷ []) == n) ≡ true =
      ground (arith, length-append front (x ∷ [])) in
    ap (run_bits (between in_payload s n front)) (append_assoc (bits_from 8 x) [] rest)
    ∙ run_bits-byte in_payload s n front x rest tt b
    ∙ rw full
run_bits-payload (y ∷ p) front x s n rest e (b, bs) =
    let more : (length (front ++ x ∷ []) == n) ≡ false =
      ground (arith, length-append front (x ∷ [])) in
    ap (run_bits (between in_payload s n front))
      (append_assoc (bits_from 8 x) (frame_to_bits (y ∷ p)) rest)
    ∙ run_bits-byte in_payload s n front x (frame_to_bits (y ∷ p) ++ rest) tt b
    ∙ rw more (
        run_bits-payload p (front ++ x ∷ []) y 0 n rest
          (omega (arith, length-append front (x ∷ []))) bs
        ∙ ap (λ f. run_bits (between in_crc 0 n f) rest) (append_assoc front (x ∷ []) (y ∷ p)))

abbrev pub verdict : Bytes → ℕ → RxResult
verdict payload c = record {
  status = if crc8 (length payload ∷ payload) == c then ok else crc_err;
  len = length payload;
  payload = payload;
}

-- Payloads that fit a frame.
pub record IsPayload (payload : Bytes) : Type 0 where
  pub starts : 1 ≤ length payload
  pub fits : length payload ≤ 32
  pub bytes : All IsByte payload

frame_to_bits-append :
    (xs ys : Bytes) → frame_to_bits (xs ++ ys) ≡ frame_to_bits xs ++ frame_to_bits ys
unfolding frame_to_bits
frame_to_bits-append [] ys = refl
frame_to_bits-append (x ∷ xs) ys =
    rw (frame_to_bits-append xs ys)
      (sym (append_assoc (bits_from 8 x) (frame_to_bits xs) (frame_to_bits ys)))

-- The wire of a frame, byte after byte.
layout :
    (n c : ℕ) (payload rest : Bytes)
    → frame_to_bits (sync ∷ n ∷ payload ++ c ∷ []) ++ rest
      ≡ bits_from 8 sync ++ (bits_from 8 n ++ (frame_to_bits payload ++ (bits_from 8 c ++ rest)))
unfolding frame_to_bits
layout n c payload rest =
    ap (λ f. bits_from 8 sync ++ (bits_from 8 n ++ f))
      (ap (λ f. f ++ rest) (frame_to_bits-append payload (c ∷ []))
        ∙ append_assoc (frame_to_bits payload) (bits_from 8 c ++ []) rest)

-- A frame with any checksum, at the front of a stream.
pub run_bits-frame :
    (payload : Bytes) (c : ℕ) (rest : Bytes)
    → IsPayload payload
    → IsByte c
    → run_bits fresh (frame_to_bits (sync ∷ length payload ∷ payload ++ c ∷ []) ++ rest)
      ≡ then_bits (fresh, some (verdict payload c)) rest
unfolding take_byte take_crc
run_bits-frame [] c rest p b = absurd (omega (arith, p.starts))
run_bits-frame (x ∷ xs) c rest p b =
    let n : ℕ = length (x ∷ xs) in
    ap (run_bits fresh) (layout n c (x ∷ xs) rest)
    ∙ run_bits-sync (bits_from 8 n ++ (frame_to_bits (x ∷ xs) ++ (bits_from 8 c ++ rest)))
    ∙ run_bits-len n sync (frame_to_bits (x ∷ xs) ++ (bits_from 8 c ++ rest)) p.starts p.fits
    ∙ run_bits-payload xs [] x 0 n (bits_from 8 c ++ rest) (omega arith) p.bytes
    ∙ run_bits-byte in_crc 0 n (x ∷ xs) c rest tt b

-- A fresh receiver and an idle line.
pub run_bits-idle :
    (k : ℕ) (rest : Bytes) → run_bits fresh (replicate k 0 ++ rest) ≡ run_bits fresh rest
unfolding run_bits feed_bit
run_bits-idle zero rest = refl
run_bits-idle (suc k) rest = run_bits-idle k rest

-- Frames on the wire, each behind a number of idle periods.
unfoldable pub send_frames : List (ℕ × Bytes) → Result LengthError Bytes
send_frames [] = built []
send_frames ((idle, payload) ∷ frames) = do
  frame ← build_frame payload
  rest ← send_frames frames
  built (replicate idle 0 ++ (frame_to_bits frame ++ rest))

pub build_frame-built :
    (payload : Bytes)
    → IsPayload payload
    → build_frame payload
      ≡ built (sync ∷ length payload ∷ payload ++ crc8 (length payload ∷ payload) ∷ [])
unfolding build_frame
build_frame-built payload p =
    let fits : (leb 1 (length payload) && leb (length payload) 32) ≡ true =
      ground (arith, p.starts, p.fits) in
    rw fits

pub checksum-IsByte :
    (payload : Bytes) → IsPayload payload → IsByte (crc8 (length payload ∷ payload))
checksum-IsByte payload p = crc8-IsByte (length payload ∷ payload) (omega (arith, p.fits), p.bytes)

abbrev pub received : Bytes → RxResult
received payload = record { status = ok; len = length payload; payload = payload }

run_bits-send_frames :
    (frames : List (ℕ × Bytes))
    → All (λ f. IsPayload f.1) frames
    → (wire : Bytes) × (send_frames frames ≡ built wire)
      × (run_bits fresh wire ≡ (fresh, map (λ f. received f.1) frames))
unfolding send_frames
run_bits-send_frames [] h = ([], refl, unfold run_bits in refl)
run_bits-send_frames ((idle, payload) ∷ frames) (p, h) =
    let (wire, sent, seen) = run_bits-send_frames frames h in
    let c : ℕ = crc8 (length payload ∷ payload) in
    let frame : Bytes = sync ∷ length payload ∷ payload ++ c ∷ [] in
    (
      replicate idle 0 ++ (frame_to_bits frame ++ wire),
      rw (build_frame-built payload p) (rw sent),
      run_bits-idle idle (frame_to_bits frame ++ wire)
          ∙ run_bits-frame payload c wire p (checksum-IsByte payload p)
          ∙ rw (==_self c) (rw seen),
    )

-- Any number of frames whose payloads have 1 to 32 bytes can be built, and a fresh receiver that is
-- fed their bits, with any number of idle periods in front of each frame and none needed between two,
-- reports each payload as intact, in order, and is fresh again.
pub feed_bits-send_frames :
    (frames : List (ℕ × Bytes))
    → All (λ f. IsPayload f.1) frames
    → (wire : Bytes) × (send_frames frames ≡ built wire)
      × (feed_bits fresh wire ≡ (fresh, map (λ f. received f.1) frames))
feed_bits-send_frames frames h =
    let (wire, sent, seen) = run_bits-send_frames frames h in
    (wire, sent, feed_bits-run_bits fresh wire ∙ seen)
