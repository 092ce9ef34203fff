-- ===== src/Transports/LengthPrefix/Chunks.antt =====
-- tcp.py, `LengthPrefixDecoder`: how the stream is cut into chunks does not matter.
use espstation.Common.{
  ◌≡◌, refl, sym, ◌∙◌, subst, arith, List, [], ◌∷◌, ◌++◌, append_assoc, append-nil, Bytes, ok,
}
use espstation.Protocol.Streaming.{Event}
use espstation.Protocol.Streaming.Chunks.{flatten}
use espstation.Transports.LengthPrefix.{feed, feed_all}
use espstation.Transports.LengthPrefix.Steps.{
  Drains, short_prefix, drains, feed-Drains, Drains-append, Drains-rest,
}

pub feed_all-Drains :
    (chunks : List Bytes) (buf : Bytes)
    → Drains buf [] buf
    → (events : List Event) × (rest : Bytes) × Drains (buf ++ flatten chunks) events rest
      × (feed_all buf chunks ≡ ok (events, rest))
unfolding feed_all
feed_all-Drains [] buf h = ([], buf, subst (λ b. Drains b [] buf) (sym (append-nil buf)) h, refl)
feed_all-Drains (chunk ∷ chunks) buf h =
    let (events, rest, d) = drains (buf ++ chunk) in
    let (later, last, k, seen) = feed_all-Drains chunks rest (Drains-rest d) in
    (
      events ++ later,
      last,
      subst (λ b. Drains b (events ++ later) last) (append_assoc buf chunk (flatten chunks))
          (Drains-append (flatten chunks) d k),
      rw (feed-Drains buf chunk d) (rw seen refl),
    )

-- From a fresh decoder, feeding the chunks of a stream one after the other always ends, with the
-- events and the buffer that feeding the whole stream at once gives.
pub feed_all-feed_prefixed : (chunks : List Bytes) → feed_all [] chunks ≡ feed [] (flatten chunks)
feed_all-feed_prefixed chunks =
    let (events, rest, d, seen) = feed_all-Drains chunks [] (short_prefix (omega arith)) in
    seen ∙ sym (feed-Drains [] (flatten chunks) d)
