-- ===== src/Dio/Receiver.antt =====
-- dio_link.py, `FrameRx`: the bit-fed receiver.
pub mod Bits
pub mod Reception
pub mod Damaged
use espstation.Common.{
  ℕ, ◌+◌, ◌*◌, ◌%◌, List, [], ◌∷◌, ◌++◌, Option, none, some, Bool, true, false, ◌&&◌, ◌||◌, ◌==◌,
  ltb, if◌then◌else◌, Bytes, length,
}
use espstation.Dio.Crc8.{crc8}
use espstation.Dio.Framing.{sync, max_payload}

-- _HUNT, _LEN, _PAYLOAD, _CRC.
pub data State : Type 0 where
  hunt in_len in_payload in_crc : State

pub data RxStatus : Type 0 where
  ok crc_err len_err : RxStatus

pub record RxResult : Type 0 where
  pub status : RxStatus
  pub len : ℕ
  pub payload : Bytes

pub record FrameRx : Type 0 where
  pub state : State
  pub shift : ℕ
  pub cur : ℕ
  pub nbits : ℕ
  pub len : ℕ
  pub buf : Bytes

-- `reset`, and the state that `__init__` makes by it.
abbrev pub fresh : FrameRx
fresh = record { state = hunt; shift = 0; cur = 0; nbits = 0; len = 0; buf = [] }

-- `((v << 1) | b) & 0xFF`, where `b` is 1 for every bit that is not 0.
pub push_bit : ℕ → ℕ → ℕ
push_bit v bit = (v * 2 + (if bit == 0 then 0 else 1)) % 0x100

pub hunt_bit : FrameRx → ℕ → FrameRx × Option RxResult
hunt_bit rx bit =
    let shift = push_bit rx.shift bit in
    if shift == sync
    then (record rx { shift = shift; state = in_len; cur = 0; nbits = 0 }, none)
    else (record rx { shift = shift }, none)

pub take_len : FrameRx → ℕ → FrameRx × Option RxResult
take_len rx byte =
    if byte == 0 || ltb max_payload byte
    then (fresh, some (record { status = len_err; len = 0; payload = [] }))
    else (record rx { len = byte; buf = []; state = in_payload }, none)

pub take_payload : FrameRx → ℕ → FrameRx × Option RxResult
take_payload rx byte =
    let buf = rx.buf ++ byte ∷ [] in
    (record rx { buf = buf; state = if length buf == rx.len then in_crc else rx.state }, none)

pub take_crc : FrameRx → ℕ → FrameRx × Option RxResult
take_crc rx byte =
    let intact = crc8 (rx.len ∷ rx.buf) == byte in
    (
      fresh,
      some (record { status = if intact then ok else crc_err; len = rx.len; payload = rx.buf }),
    )

-- A byte is complete. (`hunt` does not come here; the code would take it for the checksum.)
pub take_byte : State → FrameRx → ℕ → FrameRx × Option RxResult
take_byte in_len rx byte = take_len rx byte
take_byte in_payload rx byte = take_payload rx byte
take_byte in_crc rx byte = take_crc rx byte
take_byte hunt rx byte = take_crc rx byte

pub data_bit : FrameRx → ℕ → FrameRx × Option RxResult
data_bit rx bit =
    let cur = push_bit rx.cur bit in
    let nbits = rx.nbits + 1 in
    if ltb nbits 8
    then (record rx { cur = cur; nbits = nbits }, none)
    else take_byte rx.state (record rx { cur = 0; nbits = 0; shift = 0 }) cur

pub step_in : State → FrameRx → ℕ → FrameRx × Option RxResult
step_in hunt rx bit = hunt_bit rx bit
step_in in_len rx bit = data_bit rx bit
step_in in_payload rx bit = data_bit rx bit
step_in in_crc rx bit = data_bit rx bit

unfoldable pub feed_bit : FrameRx → ℕ → FrameRx × Option RxResult
unfolding step_in hunt_bit data_bit take_byte take_len take_payload take_crc push_bit
feed_bit rx bit = step_in rx.state rx bit

abbrev pub hunting : State → Bool
hunting hunt = true
hunting _ = false

-- `if r is not None: out.append(r)`, in front of the later results.
abbrev pub report : Option RxResult → List RxResult → List RxResult
report none later = later
report (some r) later = r ∷ later

-- With the shortcut for an idle line.
unfoldable pub feed_bits : FrameRx → Bytes → FrameRx × List RxResult
feed_bits rx [] = (rx, [])
feed_bits rx (bit ∷ bits) =
    let idle = feed_bits rx bits in
    let (rx', r) = feed_bit rx bit in
    let (rx'', later) = feed_bits rx' bits in
    if bit == 0 && (hunting rx.state && rx.shift == 0) then idle else (rx'', report r later)
