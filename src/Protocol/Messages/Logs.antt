-- ===== src/Protocol/Messages/Logs.antt =====
-- messages.py, `Log`: a console line of a node. Text and its UTF-8 coding are Python's and come as
-- parameters; `decode` is the one with `errors="replace"`, which never raises.
use espstation.Common.{
  ℕ, ◌+◌, ◌^◌, ◌<◌, ◌≡◌, refl, ap, ◌∙◌, arith, [], ◌∷◌, ◌++◌, append_assoc, length-append,
  take-length-append, drop-length-append, ltb, false, Bytes, length, take, drop, Result, ok, err,
  stuck, ◌>>=◌, ◌>>◌, raise_if,
}
use espstation.Protocol.Messages.Fields.{
  pack, pack-fits, packed, length-packed, read, read-to_le, to_le, length-to_le,
}
use espstation.Protocol.Messages.Fields

-- What packing raises: `ValueError` of a long tag, or `struct.error`.
pub data LogError : Type 0 where
  tag_too_long : ℕ → LogError
  not_packed : Fields.PackError → LogError

pub data LogDecodeError : Type 0 where
  shorter_than_header : ℕ → LogDecodeError
  truncated_tag : ℕ → LogDecodeError

abbrev pub header_of : Result Fields.PackError Bytes → Result LogError Bytes
header_of (ok bytes) = ok bytes
header_of (err e) = err (not_packed e)
header_of stuck = stuck

module _ {ℓ} (Text : Type ℓ) (encode : Text → Bytes) (decode : Bytes → Text) where
  pub record Log : Type ℓ where
    pub ts_ms : ℕ
    pub level : ℕ
    pub tag : Text
    pub msg : Text

  unfoldable pub log_to_bytes : Log → Result LogError Bytes
  log_to_bytes l = do
    raise_if (ltb 255 (length (encode l.tag))) (tag_too_long (length (encode l.tag)))
    header ← header_of (pack ((4, l.ts_ms) ∷ (1, l.level) ∷ (1, length (encode l.tag)) ∷ []))
    ok (header ++ (encode l.tag ++ encode l.msg))

  unfoldable pub log_from_bytes : Bytes → Result LogDecodeError Log
  log_from_bytes bytes = do
    raise_if (ltb (length bytes) 6) (shorter_than_header (length bytes))
    let (ts_ms, rest) = read 4 bytes
    let (level, rest) = read 1 rest
    let (tag_len, rest) = read 1 rest
    raise_if (ltb (length bytes) (6 + tag_len)) (truncated_tag tag_len)
    ok (record {
      ts_ms = ts_ms;
      level = level;
      tag = decode (take tag_len rest);
      msg = decode (drop tag_len rest);
    })

  -- When decoding undoes encoding, a log line whose fields are in range and whose tag has at most 255
  -- bytes is packed, and unpacking gives it back, wherever the tag ends and the message begins.
  pub log-roundtrip :
      ((t : Text) → decode (encode t) ≡ t)
      → (l : Log) → l.ts_ms < 256 ^ 4
      → l.level < 256
      → length (encode l.tag) < 256
      → (bytes : Bytes) × (log_to_bytes l ≡ ok bytes) × (log_from_bytes bytes ≡ ok l)
  unfolding log_to_bytes log_from_bytes
  log-roundtrip undoes l ts level short =
      let tag : Bytes = encode l.tag in
      let msg : Bytes = encode l.msg in
      let text : Bytes = tag ++ msg in
      let header : Bytes = packed ((4, l.ts_ms) ∷ (1, l.level) ∷ (1, length tag) ∷ []) in
      let bytes : Bytes = to_le 4 l.ts_ms ++ (to_le 1 l.level ++ (to_le 1 (length tag) ++ text)) in
      let size : length bytes ≡ 6 + length text = omega (
        arith,
        length-append (to_le 4 l.ts_ms) (to_le 1 l.level ++ (to_le 1 (length tag) ++ text)),
        length-append (to_le 1 l.level) (to_le 1 (length tag) ++ text),
        length-append (to_le 1 (length tag)) text,
        length-to_le 4 l.ts_ms,
        length-to_le 1 l.level,
        length-to_le 1 (length tag),
      ) in
      let parts : length text ≡ length tag + length msg = length-append tag msg in
      let small : ltb 255 (length tag) ≡ false = ground arith in
      let long : ltb (length bytes) 6 ≡ false = ground (arith, size) in
      let whole : ltb (length bytes) (6 + length tag) ≡ false = ground (arith, size, parts) in
      let r0 = read-to_le 4 l.ts_ms (to_le 1 l.level ++ (to_le 1 (length tag) ++ text)) ts in
      let r1 = read-to_le 1 l.level (to_le 1 (length tag) ++ text) level in
      let r2 = read-to_le 1 (length tag) text short in
      (
        bytes,
        rw small (
            rw
              (pack-fits ((4, l.ts_ms) ∷ (1, l.level) ∷ (1, length tag) ∷ [])
                (ts, (level, (short, tt))))
              (ap ok (
                append_assoc (to_le 4 l.ts_ms) (to_le 1 l.level ++ (to_le 1 (length tag) ++ []))
                  text
                ∙ ap (λ b. to_le 4 l.ts_ms ++ b)
                    (append_assoc (to_le 1 l.level) (to_le 1 (length tag) ++ []) text
                      ∙ ap (λ b. to_le 1 l.level ++ b)
                          (append_assoc (to_le 1 (length tag)) [] text))))),
        rw long (
            rw r0 (
              rw r1 (
                rw r2 (
                  rw whole (
                    rw (take-length-append tag msg, drop-length-append tag msg)
                      (rw (undoes l.tag, undoes l.msg) refl)))))),
      )
