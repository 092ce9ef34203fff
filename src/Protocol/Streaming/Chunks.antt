-- ===== src/Protocol/Streaming/Chunks.antt =====
-- frames.py, `StreamingDecoder`: how the stream is cut into chunks does not matter.
use espstation.Common.{◌≡◌, refl, sym, ap, ◌∙◌, List, [], ◌∷◌, ◌++◌, Bytes, All, ok}
use espstation.Protocol.Streaming.{feed, feed_all}
use espstation.Protocol.Streaming.Scan.{
  scan, IsNonZero, scan-block, scan-append, scan-open, feed-scan,
}

abbrev pub flatten : List Bytes → Bytes
flatten [] = []
flatten (xs ∷ xss) = xs ++ flatten xss

pub scan_open_block :
    (block rest : Bytes) → All IsNonZero block → scan [] (block ++ rest) ≡ scan block rest
scan_open_block block rest h = scan-block [] block rest h

pub feed_all-scan :
    (chunks : List Bytes) (buf : Bytes)
    → All IsNonZero buf
    → feed_all buf chunks ≡ ok (scan buf (flatten chunks))
unfolding feed_all
feed_all-scan [] buf h = refl
feed_all-scan (chunk ∷ chunks) buf h =
    let first : feed buf chunk ≡ ok (scan buf chunk) =
      feed-scan buf chunk ∙ ap ok (scan_open_block buf chunk h) in
    let later = feed_all-scan chunks (scan buf chunk).1 (scan-open buf chunk h) in
    rw first (rw later (rw (scan-append buf chunk (flatten chunks))))

-- From a fresh decoder, feeding the chunks of a stream one after the other always ends, with the
-- events and the buffer that feeding the whole stream at once gives.
pub feed_all-feed : (chunks : List Bytes) → feed_all [] chunks ≡ feed [] (flatten chunks)
feed_all-feed chunks = feed_all-scan chunks [] tt ∙ sym (feed-scan [] (flatten chunks))
