-- ===== src/Sim/Digital/Bursts.antt =====
-- transports/sim/node.py, `SimNode.dio_step`: a burst of test frames from one node to another.
use espstation.Common.{
  ℕ, zero, suc, ◌+◌, ◌≡◌, refl, ap, sym, ◌∙◌, arith, List, [], ◌∷◌, ◌++◌, append_assoc, append-nil,
  Bytes, false, ltb, length, subst,
}
use espstation.Common.{ok as done}
use espstation.Dio.Crc8.{crc8}
use espstation.Dio.Framing.{sync, build_frame}
use espstation.Dio.Receiver.{fresh}
use espstation.Dio.Receiver.Reception.{build_frame-built}
use espstation.Dio.TestFrames.{testframe_payload}
use espstation.Dio.Monitor.{LinkMonitor}
use espstation.Dio.Monitor.Accounts.{IsAhead, next_expected}
use espstation.Sim.Wire.{VirtualWire, WireConfig, Draw, due_frames}
use espstation.Sim.Wire
use espstation.Sim.Wire.Delivery.{
  IsBetween, IsInOrder, Conserves, bits_of, due_frames-all, carry_frame-Conserves,
}
use espstation.Sim.Wire.Runs.{carry, accepted_by, perform}
use espstation.Sim.Digital.{DioRuntime, Output}
use espstation.Sim.Digital.Step.{send_frames, receive_frames}
use espstation.Sim.Digital.Listening.{
  test_bits, testframe-IsPayload, bits_of_frames, receive_frames-testframes,
}

-- The numbers of a burst.
abbrev pub numbers_from : ℕ → ℕ → List ℕ
numbers_from zero seq = []
numbers_from (suc n) seq = seq ∷ numbers_from n (seq + 1)

build_frame-testframe :
    (seq : ℕ)
    → build_frame (testframe_payload seq)
      ≡ done (
          sync ∷ length (testframe_payload seq) ∷ testframe_payload seq
          ++ crc8 (length (testframe_payload seq) ∷ testframe_payload seq) ∷ [])
build_frame-testframe seq = build_frame-built (testframe_payload seq) (testframe-IsPayload seq)

-- A wire that keeps frames whole keeps what it is given.
accepted-whole :
    (wire : VirtualWire) (bits : Bytes) (now_us : ℕ) (draw : Draw) (draws : ℕ → ℕ)
    → wire.config.loss ≡ 0
    → wire.config.bit_error_rate ≡ 0
    → accepted_by wire.config (carry bits now_us draw draws) ≡ bits ∷ []
unfolding accepted_by
accepted-whole wire bits now_us draw draws lossless exact =
    let kept : ltb draw.chance wire.config.loss ≡ false = ground arith in
    let whole : ltb 0 wire.config.bit_error_rate ≡ false = ground arith in rw (kept, whole) refl

send_frames_step :
    (n seq : ℕ) (wire : VirtualWire) (now_us : ℕ) (draws : ℕ → Draw) (flips : ℕ → ℕ → ℕ)
    → send_frames (suc n) seq wire now_us draws flips
      ≡ send_frames n
          (seq + 1)
          (Wire.carry_frame wire (test_bits seq) now_us (draws 0) (flips 0))
          now_us
          (λ k. draws (suc k))
          (λ k. flips (suc k))
unfolding send_frames test_bits
send_frames_step n seq wire now_us draws flips = rw (build_frame-testframe seq) refl

-- A burst raises nothing, and on a wire that keeps frames whole its frames wait behind the others.
send_frames-sent :
    (n seq : ℕ) (wire : VirtualWire) (now_us : ℕ) (draws : ℕ → Draw) (flips : ℕ → ℕ → ℕ)
    → wire.config.loss ≡ 0
    → wire.config.bit_error_rate ≡ 0
    → IsInOrder wire
    → (wire' : VirtualWire) × (send_frames n seq wire now_us draws flips ≡ done wire')
      × IsInOrder wire'
      × (bits_of wire'.frames ≡ bits_of wire.frames ++ bits_of_frames (numbers_from n seq))
unfolding perform
send_frames-sent zero seq wire now_us draws flips lossless exact ordered =
    (wire, unfold send_frames in refl, ordered, sym (append-nil (bits_of wire.frames)))
send_frames-sent (suc n) seq wire now_us draws flips lossless exact ordered =
    let bits : Bytes = test_bits seq in
    let next : VirtualWire = Wire.carry_frame wire bits now_us (draws 0) (flips 0) in
    let (ordered', moved, config) : Conserves wire (carry bits now_us (draws 0) (flips 0)) =
      carry_frame-Conserves wire bits now_us (draws 0) (flips 0) ordered in
    let whole = accepted-whole wire bits now_us (draws 0) (flips 0) lossless exact in
    let (wire', sent, last, all) =
      send_frames-sent n (seq + 1) next now_us (λ k. draws (suc k)) (λ k. flips (suc k))
        (ap (λ (c : WireConfig). c.loss) config ∙ lossless)
        (ap (λ (c : WireConfig). c.bit_error_rate) config ∙ exact) ordered' in
    (
      wire',
      send_frames_step n seq wire now_us draws flips ∙ sent,
      last,
      all
          ∙ ap (λ (l : List Bytes). l ++ bits_of_frames (numbers_from n (seq + 1)))
              (moved ∙ ap (◌++◌ (bits_of wire.frames)) whole)
          ∙ append_assoc (bits_of wire.frames) (bits ∷ []) _,
    )

numbers_from-IsAhead : (n seq : ℕ) → IsAhead seq (numbers_from n seq)
numbers_from-IsAhead zero seq = tt
numbers_from-IsAhead (suc n) seq = (omega arith, omega arith, numbers_from-IsAhead n (seq + 1))

length-numbers_from : (n seq : ℕ) → length (numbers_from n seq) ≡ n
length-numbers_from zero seq = refl
length-numbers_from (suc n) seq = ap suc (length-numbers_from n (seq + 1))

next_expected-numbers_from : (n seq : ℕ) → next_expected seq (numbers_from n seq) ≡ seq + n
next_expected-numbers_from zero seq = omega arith
next_expected-numbers_from (suc n) seq = omega (arith, next_expected-numbers_from n (seq + 1))

-- From one node to the other: a burst of `n` test frames on an idle wire that loses no frame and
-- flips no bit, with any delays. The sender raises nothing; at the last promised arrival or later the
-- wire hands out the frames, and a receiver that is between frames and expects the burst's first
-- number counts `n` good frames more, as many damaged ones, broken lengths and wrong bits as before,
-- and expects the number that the sender sends next.
pub burst-received :
    (n seq : ℕ) (wire : VirtualWire) (now_us wait : ℕ) (draws : ℕ → Draw) (flips : ℕ → ℕ → ℕ)
    (dio : DioRuntime)
    → wire.config.loss ≡ 0
    → wire.config.bit_error_rate ≡ 0
    → wire.frames ≡ []
    → dio.monitor.rx ≡ fresh
    → dio.monitor.expected ≡ seq
    → (wire' : VirtualWire) × (dio' : DioRuntime) × (out : List Output) × (send_frames n seq wire
          now_us draws flips
        ≡ done wire')
      × (receive_frames
            (Wire.pop_frames wire' (wire'.last_arrival_us + wait)).1
            dio
            (wire'.last_arrival_us + wait)
          ≡ done (dio', out))
      × (dio'.monitor.stats.frames_ok ≡ dio.monitor.stats.frames_ok + n)
      × (dio'.monitor.stats.frames_crc_err ≡ dio.monitor.stats.frames_crc_err)
      × (dio'.monitor.stats.frames_len_err ≡ dio.monitor.stats.frames_len_err)
      × (dio'.monitor.stats.bit_errors ≡ dio.monitor.stats.bit_errors)
      × (dio'.monitor.expected ≡ seq + n)
unfolding Wire.pop_frames
burst-received n seq wire now_us wait draws flips dio lossless exact idle between due =
    let start : IsInOrder wire =
      subst (λ (frames : List (ℕ × Bytes)). IsBetween 0 frames wire.last_arrival_us) (sym idle)
        (omega arith) in
    let (wire', sent, ordered, all) =
      send_frames-sent n seq wire now_us draws flips lossless exact start in
    let now' : ℕ = wire'.last_arrival_us + wait in
    let arrived : due_frames wire'.frames now' ≡ bits_of_frames (numbers_from n seq) =
      due_frames-all 0 wire'.last_arrival_us now' wire'.frames ordered (omega arith)
      ∙ all
      ∙ ap (λ (frames : List (ℕ × Bytes)). bits_of frames ++ bits_of_frames (numbers_from n seq))
          idle in
    let ahead : IsAhead dio.monitor.expected (numbers_from n seq) =
      subst (λ (e : ℕ). IsAhead e (numbers_from n seq)) (sym due) (numbers_from-IsAhead n seq) in
    let (dio', out, received_, counted) =
      receive_frames-testframes (numbers_from n seq) dio now' between ahead in
    (
      wire',
      dio',
      out,
      sent,
      ap (λ (frames : List Bytes). receive_frames frames dio now') arrived ∙ received_,
      ap (λ (m : LinkMonitor). m.stats.frames_ok) counted
          ∙ ap (◌+◌ dio.monitor.stats.frames_ok) (length-numbers_from n seq),
      ap (λ (m : LinkMonitor). m.stats.frames_crc_err) counted,
      ap (λ (m : LinkMonitor). m.stats.frames_len_err) counted,
      ap (λ (m : LinkMonitor). m.stats.bit_errors) counted,
      ap (λ (m : LinkMonitor). m.expected) counted
          ∙ ap (λ (e : ℕ). next_expected e (numbers_from n seq)) due
          ∙ next_expected-numbers_from n seq,
    )
