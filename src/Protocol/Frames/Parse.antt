-- ===== src/Protocol/Frames/Parse.antt =====
-- frames.py: building a frame and parsing it, both ways round.
use espstation.Common.{
  ℕ, ◌+◌, ◌*◌, ◌/◌, ◌%◌, ◌≤◌, ◌<◌, ◌≡◌, inl, inr, sym, ap, ◌∙◌, arith, [], ◌∷◌, ◌++◌, append_assoc,
  ◌&&◌, ==_self, ltb, true, false, Bool-cases, Bytes, IsByte, length, All, All-append_left,
  All-append_right, subst, ok,
}
use espstation.Protocol.Crc16.{init, crc16_ccitt_false}
use espstation.Protocol.Packed.{le16}
use espstation.Protocol.Frames.{Frame, wire_version, encode, frame_encode, parse}
use espstation.Protocol.Frames.Parts.{
  Head, head_bytes, len_field, frame_of, checked, parse-checked, length-body, Parts, parts,
  parse-short,
}

-- The header that `encode` writes.
abbrev pub head_of : ℕ → ℕ → ℕ → ℕ → ℕ → Head
head_of ver type node seq len = record {
  ver = ver;
  type = type;
  node_lo = node % 256;
  node_hi = node / 256;
  seq_lo = seq % 256;
  seq_hi = seq / 256;
  len_lo = len % 256;
  len_hi = len / 256;
}

abbrev pub sealed : Head → Bytes → Bytes
sealed h payload =
    head_bytes h ++ payload ++ le16 (crc16_ccitt_false (head_bytes h ++ payload) init)

pub encode-sealed :
    (type node seq : ℕ) (payload : Bytes) (ver : ℕ)
    → length payload ≤ 1024
    → type < 256
    → ver < 256
    → encode type node seq payload ver
      ≡ ok (sealed (head_of ver type (node % 0x10000) (seq % 0x10000) (length payload)) payload)
unfolding encode
encode-sealed type node seq payload ver hl ht hv =
    let long : ltb 1024 (length payload) ≡ false = ground arith in
    let range : (ltb ver 256 && ltb type 256) ≡ true = ground arith in
    rw (long, range, append_assoc)

word_parts : (n : ℕ) → n % 256 + 256 * (n / 256) ≡ n
word_parts n = omega arith

-- Every frame with a one-byte type and at most 1024 payload bytes can be built, and parsing what
-- was built gives the type, the payload, and the node and sequence numbers modulo 65536.
pub parse-encode :
    (type node seq : ℕ) (payload : Bytes)
    → type < 256
    → length payload ≤ 1024
    → (body : Bytes) × (encode type node seq payload wire_version ≡ ok body)
      × (length body ≡ length payload + 10)
      × (parse body
          ≡ ok (record {
            type = type;
            node = node % 0x10000;
            seq = seq % 0x10000;
            payload = payload;
            ver = wire_version;
          }))
parse-encode type node seq payload ht hl =
    let h : Head = head_of 1 type (node % 0x10000) (seq % 0x10000) (length payload) in
    let crc : ℕ = crc16_ccitt_false (head_bytes h ++ payload) init in
    (
      sealed h payload,
      encode-sealed type node seq payload 1 hl ht (omega arith),
      length-body h payload (crc % 256) (crc / 256),
      parse-checked h payload (crc % 256) (crc / 256)
          ∙ rw
              (
                word_parts (length payload),
                word_parts crc,
                word_parts (node % 0x10000),
                word_parts (seq % 0x10000),
              )
              (rw (==_self (length payload), ==_self crc)),
    )

-- What passes the checks.
pub checked-ok :
    (h : Head) (payload : Bytes) (c0 c1 : ℕ) {f : Frame}
    → checked h payload c0 c1 ≡ ok f
    → (h.ver ≡ 1)
      × (len_field h ≡ length payload)
      × (c0 + 256 * c1 ≡ crc16_ccitt_false (head_bytes h ++ payload) init)
      × (f ≡ frame_of h payload)
checked-ok h payload c0 c1 e = ground arith

-- A body that parses has at least ten bytes, and its parts pass the checks.
pub parse-ok :
    (body : Bytes) {f : Frame}
    → parse body ≡ ok f
    → (p : Parts body) × (checked p.head p.middle p.c0 p.c1 ≡ ok f)
parse-ok body e = elim (Bool-cases (ltb (length body) 10)) [
  | inl short ↦ absurd (cc (parse-short body (ground arith)))
  | inr long ↦
      let p = parts body (ground arith) in
      (p, sym (parse-checked p.head p.middle p.c0 p.c1) ∙ ap parse (sym p.splits) ∙ e)
]

encode-checked :
    (h : Head) (payload : Bytes) (c0 c1 : ℕ)
    → All IsByte (head_bytes h)
    → IsByte c0
    → IsByte c1
    → h.ver ≡ 1
    → len_field h ≡ length payload
    → c0 + 256 * c1 ≡ crc16_ccitt_false (head_bytes h ++ payload) init
    → length payload ≤ 1024
    → frame_encode (frame_of h payload) ≡ ok (head_bytes h ++ payload ++ c0 ∷ c1 ∷ [])
unfolding frame_encode
encode-checked h payload c0 c1 b b0 b1 one len crc hl =
    let g : Head =
      head_of h.ver h.type ((h.node_lo + 256 * h.node_hi) % 0x10000)
        ((h.seq_lo + 256 * h.seq_hi) % 0x10000) (length payload) in
    let same : g ≡ h = ground arith in
    let sum : le16 (crc16_ccitt_false (head_bytes h ++ payload) init) ≡ c0 ∷ c1 ∷ [] =
      ground arith in
    encode-sealed h.type (h.node_lo + 256 * h.node_hi) (h.seq_lo + 256 * h.seq_hi) payload h.ver hl
      (omega arith) (omega arith)
    ∙ ap (λ k. ok (sealed k payload)) same
    ∙ ap (λ c. ok (head_bytes h ++ payload ++ c)) sum

-- A body of bytes that parses, with at most 1024 payload bytes, is the one that building the parsed
-- frame gives.
pub encode-parse :
    (body : Bytes) (f : Frame)
    → All IsByte body
    → parse body ≡ ok f
    → length f.payload ≤ 1024
    → frame_encode f ≡ ok body
unfolding frame_encode
encode-parse body f b e hl =
    let (p, c) = parse-ok body e in
    let (one, len, crc, is) = checked-ok p.head p.middle p.c0 p.c1 c in
    let bytes : All IsByte (head_bytes p.head ++ p.middle ++ p.c0 ∷ p.c1 ∷ []) =
      subst (All IsByte) p.splits b in
    let ending : All IsByte (p.c0 ∷ p.c1 ∷ []) =
      All-append_right IsByte (head_bytes p.head ++ p.middle) (p.c0 ∷ p.c1 ∷ []) bytes in
    ap frame_encode is
    ∙ encode-checked p.head p.middle p.c0 p.c1
        (All-append_left IsByte (head_bytes p.head) (p.middle ++ p.c0 ∷ p.c1 ∷ []) bytes)
        (omega arith) (omega arith) one len crc (subst (λ g. length g.payload ≤ 1024) is hl)
    ∙ ap ok (sym p.splits)
