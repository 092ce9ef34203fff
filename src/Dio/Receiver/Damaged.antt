-- ===== src/Dio/Receiver/Damaged.antt =====
-- dio_link.py, `FrameRx`: frames that the wire has damaged.
use espstation.Common.{
  ℕ, ◌<◌, ◌≡◌, ◌≢◌, ◌⊎◌, refl, sym, ap, subst, ◌∙◌, arith, [], ◌∷◌, ◌++◌, append-nil, some, false,
  ◌==◌, if◌then◌else◌, Bytes, IsByte, length, length-append, All, All-append, All-append_left,
  All-append_right,
}
use espstation.Common.{ok as built}
use espstation.Dio.Crc8.{crc8, crc8_detects}
use espstation.Dio.Framing.{sync, build_frame, bits_from, frame_to_bits}
use espstation.Dio.Receiver.{ok, crc_err, len_err, fresh, feed_bits}
use espstation.Dio.Receiver.Bits.{run_bits, feed_bits-run_bits, then_bits}
use espstation.Dio.Receiver.Reception.{
  IsPayload, verdict, run_bits-frame, checksum-IsByte, build_frame-built, run_bits-sync,
  run_bits-len_err,
}

-- A frame in which one payload byte was replaced by another byte, the checksum being that of the
-- original, is reported as `crc_err`, with the bytes that arrived, and the receiver is fresh again.
pub feed_bits_damaged :
    (front back : Bytes) (x y : ℕ)
    → IsPayload (front ++ x ∷ back)
    → IsByte y
    → x ≢ y
    → let sent : Bytes = front ++ x ∷ back in
      let arrived : Bytes = front ++ y ∷ back in
      (build_frame sent ≡ built (sync ∷ length sent ∷ sent ++ crc8 (length sent ∷ sent) ∷ []))
      × (feed_bits fresh
            (frame_to_bits (sync ∷ length sent ∷ arrived ++ crc8 (length sent ∷ sent) ∷ []))
          ≡ (fresh, record { status = crc_err; len = length sent; payload = arrived } ∷ []))
unfolding run_bits
feed_bits_damaged front back x y p hy ne =
    let sent : Bytes = front ++ x ∷ back in
    let arrived : Bytes = front ++ y ∷ back in
    let c : ℕ = crc8 (length sent ∷ sent) in
    let same : length arrived ≡ length sent =
      length-append front (y ∷ back) ∙ sym (length-append front (x ∷ back)) in
    let hf : All IsByte front = All-append_left IsByte front (x ∷ back) p.bytes in
    let (hx, hb) : IsByte x × All IsByte back = All-append_right IsByte front (x ∷ back) p.bytes in
    let q : IsPayload arrived = record {
      starts = omega (arith, same, p.starts);
      fits = omega (arith, same, p.fits);
      bytes = All-append IsByte front (y ∷ back) hf (hy, hb);
    } in
    let differ : crc8 (length sent ∷ arrived) ≢ c = λ e.
      crc8_detects (length sent ∷ front) back x y (omega (arith, p.fits), hf) hb hx hy ne (sym e) in
    let caught : (crc8 (length sent ∷ arrived) == c) ≡ false = ground (arith, differ) in
    let seen : run_bits fresh (frame_to_bits (sync ∷ length arrived ∷ arrived ++ c ∷ []) ++ [])
        ≡ then_bits (fresh, some (verdict arrived c)) [] =
      run_bits-frame arrived c [] q (checksum-IsByte sent p) in
    (
      build_frame-built sent p,
      feed_bits-run_bits fresh (frame_to_bits (sync ∷ length sent ∷ arrived ++ c ∷ []))
          ∙ ap (run_bits fresh)
              (sym (append-nil (frame_to_bits (sync ∷ length sent ∷ arrived ++ c ∷ []))))
          ∙ subst
              (λ n. run_bits fresh (frame_to_bits (sync ∷ n ∷ arrived ++ c ∷ []) ++ []) ≡ (
                fresh,
                record {
                  status = if crc8 (n ∷ arrived) == c then ok else crc_err;
                  len = n;
                  payload = arrived;
                }
                    ∷ [],
              ))
              same seen
          ∙ rw caught refl,
    )

-- A frame whose length byte is 0 or more than 32 is reported as `len_err` when that byte is complete,
-- and what follows is received as if the receiver were fresh.
pub feed_bits_bad_length :
    (n : ℕ) (rest : Bytes)
    → (n ≡ 0) ⊎ (32 < n)
    → IsByte n
    → feed_bits fresh (frame_to_bits (sync ∷ n ∷ []) ++ rest) ≡ (
      (feed_bits fresh rest).0,
      record { status = len_err; len = 0; payload = [] } ∷ (feed_bits fresh rest).1,
    )
unfolding frame_to_bits
feed_bits_bad_length n rest bad b =
    feed_bits-run_bits fresh (frame_to_bits (sync ∷ n ∷ []) ++ rest)
    ∙ run_bits-sync (bits_from 8 n ++ rest)
    ∙ run_bits-len_err n sync rest bad b
    ∙ rw (feed_bits-run_bits fresh rest) refl
