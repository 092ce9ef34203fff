-- ===== src/Sim/Outbox.antt =====
-- transports/sim/node.py, `SimNode._next_seq` and `_send_nowait`: the frames that a node sends.
use espstation.Common.{
  ℕ, ◌+◌, ◌%◌, ◌≤◌, ◌<◌, ◌≡◌, refl, ap, sym, subst, ◌∙◌, arith, List, [], ◌∷◌, ◌++◌, append_assoc,
  append-nil, Option, none, some, Bool, true, false, ◌&&◌, ◌==◌, leb, All, ltb, if◌then◌else◌,
  Bytes, length, Result, ok, ◌>>=◌,
}
use espstation.Protocol.Frames.{BuildError, max_payload}
use espstation.Protocol.Frames
use espstation.Protocol.Crc16.{init, crc16_ccitt_false}
use espstation.Protocol.Packed.{le16}

-- `TYPE_HELLO`
abbrev pub type_hello : ℕ
type_hello = 1

-- The queue may be bounded: `capacity` is its `maxsize`, if it has one (0 is none).
pub record Sender : Type 0 where
  pub node_id : ℕ
  pub seq : ℕ
  pub announced : Bool
  pub capacity : Option ℕ
  pub outbox : List Bytes
  pub outbox_dropped : ℕ

unfoldable pub next_seq : Sender → Sender × ℕ
next_seq sender = (record sender { seq = (sender.seq + 1) % 0x10000 }, sender.seq)

is_full : Option ℕ → List Bytes → Bool
is_full none outbox = false
is_full (some capacity) outbox = ltb 0 capacity && leb capacity (length outbox)

put_nowait : Sender → Bytes → Sender
put_nowait sender frame =
    if is_full sender.capacity sender.outbox
    then record sender { outbox_dropped = sender.outbox_dropped + 1 }
    else record sender { outbox = sender.outbox ++ frame ∷ [] }

announce : Sender → ℕ → Sender
announce sender type_code =
    if type_code == type_hello then record sender { announced = true } else sender

-- A sequence number is spent also for a frame that the queue has no room for.
unfoldable pub send_nowait : Sender → ℕ → Bytes → Result BuildError Sender
unfolding announce put_nowait is_full
send_nowait sender type_code payload = do
  let (sender, seq) = next_seq (announce sender type_code)
  frame ← Frames.encode type_code sender.node_id seq payload 1
  ok (put_nowait sender frame)

-- Messages, a type and a payload each, one after the other.
unfoldable pub send_all : Sender → List (ℕ × Bytes) → Result BuildError Sender
send_all sender [] = ok sender
send_all sender ((type_code, payload) ∷ messages) = do
  sender ← send_nowait sender type_code payload
  send_all sender messages

-- A message that a frame can carry.
abbrev pub IsMessage : ℕ × Bytes → Type 0
IsMessage (type_code, payload) = (type_code < 256) × (length payload ≤ max_payload)

abbrev framed : Bytes → Bytes
framed body = body ++ le16 (crc16_ccitt_false body init)

-- The frame of a message under a number, as `encode_frame` builds it.
abbrev pub frame_of : ℕ → ℕ → ℕ × Bytes → Bytes
frame_of node_id seq (type_code, payload) =
    framed
      (Frames.header 1 type_code (node_id % 0x10000) (seq % 0x10000) (length payload) ++ payload)

-- The frames of messages under consecutive numbers of 16 bits.
abbrev pub frames_from : ℕ → ℕ → List (ℕ × Bytes) → List Bytes
frames_from node_id seq [] = []
frames_from node_id seq (m ∷ messages) =
    frame_of node_id seq m ∷ frames_from node_id ((seq + 1) % 0x10000) messages

encode-message :
    (node_id seq : ℕ) (type_code : ℕ) (payload : Bytes)
    → IsMessage (type_code, payload)
    → Frames.encode type_code node_id seq payload 1 ≡ ok (frame_of node_id seq (type_code, payload))
unfolding Frames.encode
encode-message node_id seq type_code payload (small, short) =
    let short' : ltb max_payload (length payload) ≡ false = ground arith in
    let small' : ltb type_code 256 ≡ true = ground arith in rw (short', small') refl

is_full-unbounded :
    (capacity : Option ℕ) (outbox : List Bytes) → capacity ≡ none → is_full capacity outbox ≡ false
unfolding is_full
is_full-unbounded none outbox e = refl
is_full-unbounded (some capacity) outbox e = cc

put_nowait-unbounded :
    (sender : Sender) (frame : Bytes)
    → sender.capacity ≡ none
    → put_nowait sender frame ≡ record sender { outbox = sender.outbox ++ frame ∷ [] }
unfolding put_nowait
put_nowait-unbounded sender frame unbounded =
    let room : is_full sender.capacity sender.outbox ≡ false =
      is_full-unbounded sender.capacity sender.outbox unbounded in
    rw room refl

announce_keeps :
    (sender : Sender) (type_code : ℕ)
    → announce sender type_code
      ≡ record sender { announced = (announce sender type_code).announced }
unfolding announce
announce_keeps sender type_code = ground arith

send_nowait-unbounded :
    (sender : Sender) (type_code : ℕ) (payload : Bytes)
    → sender.capacity ≡ none
    → IsMessage (type_code, payload)
    → send_nowait sender type_code payload
      ≡ ok (record sender {
        announced = (announce sender type_code).announced;
        seq = (sender.seq + 1) % 0x10000;
        outbox = sender.outbox ++ frame_of sender.node_id sender.seq (type_code, payload) ∷ [];
      })
unfolding send_nowait next_seq
send_nowait-unbounded sender type_code payload unbounded fits =
    let ready : Sender = record sender { announced = (announce sender type_code).announced } in
    subst
      (λ (s : Sender).
        (Frames.encode type_code s.node_id s.seq payload 1 >>= λ frame.
        ok (put_nowait (record s { seq = (s.seq + 1) % 0x10000 }) frame))
        ≡ ok (record ready {
          seq = (sender.seq + 1) % 0x10000;
          outbox = sender.outbox ++ frame_of sender.node_id sender.seq (type_code, payload) ∷ [];
        }))
      (sym (announce_keeps sender type_code))
      (rw (encode-message sender.node_id sender.seq type_code payload fits) (
        ap ok (
          put_nowait-unbounded (record ready { seq = (sender.seq + 1) % 0x10000 })
            (frame_of sender.node_id sender.seq (type_code, payload)) unbounded)))

-- A node whose queue is unbounded sends every message that fits in a frame, without an error: the
-- queue has the frames of the messages behind the others, in order and under the numbers that follow
-- the node's own by one, 0 after 65535; nothing is dropped.
pub send_all-unbounded :
    (sender : Sender) (messages : List (ℕ × Bytes))
    → sender.capacity ≡ none
    → All IsMessage messages
    → (sender' : Sender) × (send_all sender messages ≡ ok sender')
      × (sender'.outbox ≡ sender.outbox ++ frames_from sender.node_id sender.seq messages)
      × (sender'.outbox_dropped ≡ sender.outbox_dropped)
unfolding send_all
send_all-unbounded sender [] unbounded h = (sender, refl, sym (append-nil sender.outbox), refl)
send_all-unbounded sender ((type_code, payload) ∷ messages) unbounded (fits, h) =
    let frame : Bytes = frame_of sender.node_id sender.seq (type_code, payload) in
    let next : Sender = record sender {
      announced = (announce sender type_code).announced;
      seq = (sender.seq + 1) % 0x10000;
      outbox = sender.outbox ++ frame ∷ [];
    } in
    let (sender', sent, all, dropped) = send_all-unbounded next messages unbounded h in
    (
      sender',
      ap (λ (r : Result BuildError Sender). r >>= λ s. send_all s messages)
            (send_nowait-unbounded sender type_code payload unbounded fits)
          ∙ sent,
      all ∙ append_assoc sender.outbox (frame ∷ []) _,
      dropped,
    )
