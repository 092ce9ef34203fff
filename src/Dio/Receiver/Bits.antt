-- ===== src/Dio/Receiver/Bits.antt =====
-- dio_link.py, `FrameRx`: the receiver without its shortcut, and a whole byte at a time.
use espstation.Common.{
  ℕ, ◌/◌, ◌%◌, ◌^◌, ◌≡◌, refl, ap, ◌∙◌, arith, List, [], ◌∷◌, ◌++◌, Option, none, true, ◌&&◌, ◌==◌,
  ==_iff, Bool-cases, inl, inr, Bytes, IsByte,
}
use espstation.Common.Bits.{every_byte, every_byte-holds}
use espstation.Dio.Framing.{bits_from}
use espstation.Dio.Receiver.{
  State, hunt, in_len, in_payload, in_crc, FrameRx, RxResult, push_bit, data_bit, take_byte,
  step_in, feed_bit, feed_bits, hunting, report,
}

-- Bit after bit, none left out.
unfoldable pub run_bits : FrameRx → Bytes → FrameRx × List RxResult
run_bits rx [] = (rx, [])
run_bits rx (bit ∷ bits) =
    let (rx', r) = feed_bit rx bit in
    let (rx'', later) = run_bits rx' bits in (rx'', report r later)

-- A low bit while hunting with an empty register changes nothing.
feed_bit-idle : (rx : FrameRx) → rx.state ≡ hunt → rx.shift ≡ 0 → feed_bit rx 0 ≡ (rx, none)
unfolding feed_bit
feed_bit-idle rx h z = ground arith

hunting_hunt : (s : State) → hunting s ≡ true → s ≡ hunt
hunting_hunt s h = ground arith

-- The shortcut for an idle line changes neither the state nor the results.
pub feed_bits-run_bits : (rx : FrameRx) (bits : Bytes) → feed_bits rx bits ≡ run_bits rx bits
unfolding feed_bits run_bits
feed_bits-run_bits rx [] = refl
feed_bits-run_bits rx (bit ∷ bits) =
    elim (Bool-cases (bit == 0 && (hunting rx.state && rx.shift == 0))) [
      | inl skip ↦
          let low : bit ≡ 0 = ground arith in
          let state : rx.state ≡ hunt = hunting_hunt rx.state (ground arith) in
          let idle : feed_bit rx bit ≡ (rx, none) =
            ap (feed_bit rx) low ∙ feed_bit-idle rx state (ground arith) in
          rw skip (feed_bits-run_bits rx bits ∙ rw idle)
      | inr other ↦ rw other (rw (feed_bits-run_bits (feed_bit rx bit).0 bits))
    ]

-- What a step gives, in front of what the later bits give.
abbrev pub then_bits : FrameRx × Option RxResult → Bytes → FrameRx × List RxResult
then_bits (rx, r) bits = ((run_bits rx bits).0, report r (run_bits rx bits).1)

abbrev pushed : ℕ → ℕ
pushed x =
    push_bit
      (push_bit
        (push_bit
          (push_bit
            (push_bit
              (push_bit (push_bit (push_bit 0 (x / 2 ^ 7 % 2)) (x / 2 ^ 6 % 2)) (x / 2 ^ 5 % 2))
              (x / 2 ^ 4 % 2))
            (x / 2 ^ 3 % 2))
          (x / 2 ^ 2 % 2))
        (x / 2 ^ 1 % 2))
      (x / 2 ^ 0 % 2)

pushed_table : every_byte (λ x. pushed x == x) ≡ true
unfolding every_byte push_bit
pushed_table = refl

pushed-eq : (x : ℕ) → IsByte x → pushed x ≡ x
pushed-eq x h = (==_iff _ _).0 (every_byte-holds (λ y. pushed y == y) x pushed_table h)

-- A receiver between two bytes of a frame.
abbrev pub between : State → ℕ → ℕ → Bytes → FrameRx
between state shift len buf = record {
  state = state;
  shift = shift;
  cur = 0;
  nbits = 0;
  len = len;
  buf = buf;
}

abbrev pub IsInside : State → Type 0
IsInside hunt = ⊥
IsInside _ = Unit

run_bits-pushed :
    (state : State) (shift len : ℕ) (buf : Bytes) (x : ℕ) (rest : Bytes)
    → IsInside state
    → run_bits (between state shift len buf) (bits_from 8 x ++ rest)
      ≡ then_bits (take_byte state (between state 0 len buf) (pushed x)) rest
unfolding run_bits feed_bit step_in data_bit
run_bits-pushed hunt shift len buf x rest h = absurd h
run_bits-pushed in_len shift len buf x rest h = refl
run_bits-pushed in_payload shift len buf x rest h = refl
run_bits-pushed in_crc shift len buf x rest h = refl

-- The eight bits of a byte are taken for that byte.
pub run_bits-byte :
    (state : State) (shift len : ℕ) (buf : Bytes) (x : ℕ) (rest : Bytes)
    → IsInside state
    → IsByte x
    → run_bits (between state shift len buf) (bits_from 8 x ++ rest)
      ≡ then_bits (take_byte state (between state 0 len buf) x) rest
run_bits-byte state shift len buf x rest h b =
    run_bits-pushed state shift len buf x rest h
    ∙ ap (λ y. then_bits (take_byte state (between state 0 len buf) y) rest) (pushed-eq x b)
