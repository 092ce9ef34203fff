-- ===== src/Protocol/Frames/Parts.antt =====
-- frames.py: `parse` on a body that is long enough, in terms of its parts.
use espstation.Common.{
  ℕ, ◌+◌, ◌-◌, ◌*◌, ◌≤◌, ◌<◌, ◌≡◌, refl, ap, ◌∙◌, arith, [], ◌∷◌, ◌++◌, not, ◌==◌, ltb, true, false,
  Bool-cases, inl, inr, ==_iff, if◌then◌else◌, Bytes, length, take, drop, length-append,
  take-length-append, drop-length-append, Result, ok, err,
}
use espstation.Protocol.Crc16.{init, crc16_ccitt_false}
use espstation.Protocol.Frames.{
  Frame, FrameError, too_short, bad_version, bad_length, bad_crc, wire_version, parse,
}

-- The eight bytes of a header.
pub record Head : Type 0 where
  pub ver : ℕ
  pub type : ℕ
  pub node_lo : ℕ
  pub node_hi : ℕ
  pub seq_lo : ℕ
  pub seq_hi : ℕ
  pub len_lo : ℕ
  pub len_hi : ℕ

abbrev pub head_bytes : Head → Bytes
head_bytes h =
    h.ver ∷ h.type ∷ h.node_lo ∷ h.node_hi ∷ h.seq_lo ∷ h.seq_hi ∷ h.len_lo ∷ h.len_hi ∷ []

abbrev pub len_field : Head → ℕ
len_field h = h.len_lo + 256 * h.len_hi

abbrev pub frame_of : Head → Bytes → Frame
frame_of h payload = record {
  type = h.type;
  node = h.node_lo + 256 * h.node_hi;
  seq = h.seq_lo + 256 * h.seq_hi;
  payload = payload;
  ver = h.ver;
}

-- The checks of `parse`, in its order, on a header, a payload and two checksum bytes.
abbrev pub checked : Head → Bytes → ℕ → ℕ → Result FrameError Frame
checked h payload c0 c1 =
    let crc = crc16_ccitt_false (head_bytes h ++ payload) init in
    if not (h.ver == wire_version)
    then err (bad_version h.ver)
    else if not (len_field h == length payload)
    then err (bad_length (len_field h) (length payload))
    else if not (c0 + 256 * c1 == crc)
    then err (bad_crc (c0 + 256 * c1) crc)
    else ok (frame_of h payload)

module _ (h : Head) (payload : Bytes) (c0 c1 : ℕ) where
  abbrev body : Bytes
  body = head_bytes h ++ payload ++ c0 ∷ c1 ∷ []

  pub length-body : length body ≡ length payload + 10
  length-body = omega (arith, length-append payload (c0 ∷ c1 ∷ []))

  payload_part : take (length payload) (drop 8 body) ≡ payload
  payload_part = take-length-append payload (c0 ∷ c1 ∷ [])

  size : 8 + length payload ≡ length (head_bytes h ++ payload)
  size = omega arith

  covered : take (8 + length payload) body ≡ head_bytes h ++ payload
  covered = ap (λ n. take n body) size ∙ take-length-append (head_bytes h ++ payload) (c0 ∷ c1 ∷ [])

  checksum : drop (8 + length payload) body ≡ c0 ∷ c1 ∷ []
  checksum =
      ap (λ n. drop n body) size ∙ drop-length-append (head_bytes h ++ payload) (c0 ∷ c1 ∷ [])

  pub parse-checked : parse body ≡ checked h payload c0 c1
  unfolding parse
  parse-checked =
      let long : ltb (length body) 10 ≡ false = ground (arith, length-body) in
      let available : length body - 8 - 2 ≡ length payload = omega (arith, length-body) in
      elim (Bool-cases (len_field h == length payload)) [
        | inl same ↦
            let e : len_field h ≡ length payload = (==_iff (len_field h) (length payload)).0 same in
            rw (long, available, same, e, payload_part, covered, checksum) (ground arith)
        | inr other ↦ rw (long, available, other) (ground arith)
      ]

-- A body that is long enough has such parts.
pub record Parts (bytes : Bytes) : Type 0 where
  pub head : Head
  pub middle : Bytes
  pub c0 : ℕ
  pub c1 : ℕ
  pub splits : bytes ≡ head_bytes head ++ middle ++ c0 ∷ c1 ∷ []

pub last_two :
    (xs : Bytes) → 2 ≤ length xs → (k : Bytes) × (a : ℕ) × (b : ℕ) × (xs ≡ k ++ a ∷ b ∷ [])
last_two [] h = absurd (omega arith)
last_two (x ∷ []) h = absurd (omega arith)
last_two (x ∷ y ∷ []) h = ([], x, y, refl)
last_two (x ∷ y ∷ z ∷ r) h =
    let (k, a, b, e) = last_two (y ∷ z ∷ r) (omega arith) in (x ∷ k, a, b, ap (◌∷◌ x) e)

pub parts : (bytes : Bytes) → 10 ≤ length bytes → Parts bytes
parts (ver ∷ type ∷ n0 ∷ n1 ∷ s0 ∷ s1 ∷ l0 ∷ l1 ∷ rest) h =
    let (k, a, b, e) = last_two rest (omega arith) in
    record {
      head = record {
        ver = ver;
        type = type;
        node_lo = n0;
        node_hi = n1;
        seq_lo = s0;
        seq_hi = s1;
        len_lo = l0;
        len_hi = l1;
      };
      middle = k;
      c0 = a;
      c1 = b;
      splits = ap (λ r. ver ∷ type ∷ n0 ∷ n1 ∷ s0 ∷ s1 ∷ l0 ∷ l1 ∷ r) e;
    }
parts _ h = absurd (omega arith)

-- A shorter body is refused as such.
pub parse-short : (bytes : Bytes) → length bytes < 10 → parse bytes ≡ err (too_short (length bytes))
unfolding parse
parse-short bytes h = let short : ltb (length bytes) 10 ≡ true = ground arith in rw short
