-- ===== src/Transports/Link.antt =====
-- gateway/espstation_gateway/transports/base.py: a link, which pumps the chunks of its transport
-- through its decoder. The transport and the listeners are not under this file: a transport is the
-- chunks that it yields and how it ends; of the listeners there are how they take each event, and the
-- list of what they are told.
pub mod Sessions
use espstation.Common.{
  ℕ, zero, suc, ◌+◌, ◌%◌, List, [], ◌∷◌, ◌++◌, map, length, Option, none, some, Bool, true, false,
  Bytes, Result, ok, err, stuck, ◌>>=◌,
}
use espstation.Protocol.Frames.{parse}
use espstation.Protocol.Streaming.{Event, parse_or_raw}
use espstation.Protocol.Streaming
use espstation.Transports.LengthPrefix

-- `FrameDecoder`; neither call raises.
pub record FrameDecoder : Type 1 where
  pub State : Type 0
  pub feed : State → Bytes → Result ⊥ (List Event × State)
  pub flush : State → List Event × State

-- `StreamingDecoder`, for a serial port.
abbrev pub serial_decoder : FrameDecoder
serial_decoder = record { State = Bytes; feed = Streaming.feed; flush = Streaming.flush }

abbrev pub tcp_decoder : FrameDecoder
tcp_decoder = record { State = Bytes; feed = LengthPrefix.feed; flush = LengthPrefix.flush }

-- `RawFrameDecoder`.
abbrev pub raw_events : Bytes → List Event
raw_events [] = []
raw_events (x ∷ xs) = parse_or_raw (x ∷ xs) (parse (x ∷ xs)) ∷ []

abbrev pub raw_decoder : FrameDecoder
raw_decoder = record {
  State = Unit;
  feed = λ s chunk. ok (raw_events chunk, s);
  flush = λ s. ([], s);
}

pub data LinkEvent : Type 0 where
  decoded : Event → LinkEvent
  closed : LinkEvent
  error : LinkEvent

-- How the transport's iterator ends: of itself, by an exception, or with the pump's task cancelled.
pub data Ending : Type 0 where
  finished died cancelled : Ending

-- How the listeners take an event: they hear it, one of them raises an exception, or the pump's task is
-- cancelled while they are told.
pub data Hearing : Type 0 where
  hears raises interrupted : Hearing

after_event : Hearing → LinkEvent → List LinkEvent × Option Ending → List LinkEvent × Option Ending
after_event hears e (told, stopped) = (e ∷ told, stopped)
after_event raises e later = (e ∷ [], some died)
after_event interrupted e later = (e ∷ [], some cancelled)

-- The events of a chunk: which are told, and what stops the pump before the others.
pub emit_all : (ℕ → Hearing) → ℕ → List LinkEvent → List LinkEvent × Option Ending
unfolding after_event
emit_all hearing n [] = ([], none)
emit_all hearing n (e ∷ events) = after_event (hearing n) e (emit_all hearing (n + 1) events)

pub record Link (D : FrameDecoder) : Type 0 where
  pub decoder : D.State
  pub connected : Bool
  pub seq : ℕ

module _ (D : FrameDecoder) where
  unfoldable pub next_seq : Link D → Link D × ℕ
  next_seq link = (record link { seq = (link.seq + 1) % 0x10000 }, link.seq)

  abbrev pub start : Link D → Link D
  start link = record link { connected = true }

  -- What the listeners are told at the end: an exception of a listener that is told of the end is
  -- itself told as an error.
  pub end_of_pump : Hearing → Ending → Link D → List LinkEvent × Link D
  end_of_pump raises finished link = (closed ∷ error ∷ [], record link { connected = false })
  end_of_pump hears finished link = (closed ∷ [], record link { connected = false })
  end_of_pump interrupted finished link = (closed ∷ [], record link { connected = false })
  end_of_pump hearing died link = (error ∷ [], record link { connected = false })
  end_of_pump hearing cancelled link = ([], link)

  -- The pump after the events of a chunk, given what it does with the later chunks: it goes on unless a
  -- listener stopped it.
  pub after_chunk :
      (ℕ → Hearing)
      → ℕ
      → Link D
      → List LinkEvent × Option Ending
      → Result ⊥ (List LinkEvent × Link D)
      → Result ⊥ (List LinkEvent × Link D)
  after_chunk hearing n link (told, none) rest = do (later, link) ← rest; ok (told ++ later, link)
  after_chunk hearing n link (told, some how) rest =
      let (later, link) = end_of_pump (hearing (n + length told)) how link in
      ok (told ++ later, link)

  -- `hearing` is how the listeners take each event, the first of which has the number `n`.
  unfoldable pub pump :
      (ℕ → Hearing) → ℕ → Link D → List Bytes → Ending → Result ⊥ (List LinkEvent × Link D)
  unfolding end_of_pump after_chunk emit_all
  pump hearing n link [] ending = ok (end_of_pump (hearing n) ending link)
  pump hearing n link (chunk ∷ chunks) ending = do
    (events, decoder) ← D.feed link.decoder chunk
    let fed = record link { decoder = decoder }
    after_chunk hearing n fed (emit_all hearing n (map decoded events))
        (pump hearing (n + length events) fed chunks ending)

  -- The cancelled pump emits nothing more; then the decoder is flushed.
  unfoldable pub stop : Link D → List LinkEvent × Link D
  stop link =
      let (events, decoder) = D.flush link.decoder in
      (map decoded events, record link { decoder = decoder; connected = false })
