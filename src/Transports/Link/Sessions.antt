-- ===== src/Transports/Link/Sessions.antt =====
-- base.py, `Link`: what the listeners are told of a whole stream, and the numbers of sent frames.
use espstation.Common.{
  length, none, ℕ, zero, suc, ◌+◌, ◌%◌, ◌<◌, ◌≡◌, refl, sym, ap, ◌∙◌, arith, List, [], ◌∷◌, ◌++◌,
  append_assoc, map, Bool, false, Bytes, Result, ok, err, stuck, ◌>>=◌, >>=-cong,
}
use espstation.Protocol.Streaming.{Event}
use espstation.Protocol.Streaming
use espstation.Protocol.Streaming.Chunks.{flatten, feed_all-feed}
use espstation.Protocol.Streaming.Scan.{scan, feed-scan}
use espstation.Transports.LengthPrefix
use espstation.Transports.LengthPrefix.Chunks.{feed_all-Drains}
use espstation.Transports.LengthPrefix.Steps.{short_prefix, feed-Drains}
use espstation.Transports.Link.{
  FrameDecoder, serial_decoder, tcp_decoder, Link, LinkEvent, Hearing, hears, emit_all, after_event,
  after_chunk, decoded, closed, error, Ending, finished, died, cancelled, next_seq, pump,
  end_of_pump, stop,
}

-- The numbers that `n` frames of the station get.
unfoldable pub next_seqs : (D : FrameDecoder) → ℕ → Link D → List ℕ
next_seqs D zero link = []
next_seqs D (suc n) link = let (link, seq) = next_seq D link in seq ∷ next_seqs D n link

abbrev pub counted_from : ℕ → ℕ → List ℕ
counted_from zero seq = []
counted_from (suc n) seq = seq % 0x10000 ∷ counted_from n (seq + 1)

counted_from-mod : (n seq : ℕ) → counted_from n (seq % 0x10000) ≡ counted_from n seq
counted_from-mod zero seq = refl
counted_from-mod (suc n) seq =
    let here : seq % 0x10000 % 0x10000 ≡ seq % 0x10000 = omega arith in
    let next : (seq % 0x10000 + 1) % 0x10000 ≡ (seq + 1) % 0x10000 = omega arith in
    let later : counted_from n (seq % 0x10000 + 1) ≡ counted_from n (seq + 1) =
      sym (counted_from-mod n (seq % 0x10000 + 1))
      ∙ ap (counted_from n) next
      ∙ counted_from-mod n (seq + 1) in
    rw (here, later) refl

-- The frames of a station are numbered one after the other, modulo 65536.
pub next_seqs-counted_from :
    (D : FrameDecoder) (n : ℕ) (link : Link D)
    → link.seq < 0x10000
    → next_seqs D n link ≡ counted_from n link.seq
unfolding next_seqs next_seq
next_seqs-counted_from D zero link h = refl
next_seqs-counted_from D (suc n) link h =
    let here : link.seq % 0x10000 ≡ link.seq = omega arith in
    rw (next_seqs-counted_from D n (record link { seq = (link.seq + 1) % 0x10000 }) (omega arith))
      (rw (counted_from-mod n (link.seq + 1)) (rw here refl))

map-append {ℓ κ} :
    {A : Type ℓ} {B : Type κ} (f : A → B) (xs ys : List A) → map f (xs ++ ys) ≡ map f xs ++ map f ys
map-append f [] ys = refl
map-append f (x ∷ xs) ys = ap (◌∷◌ (f x)) (map-append f xs ys)

emit_all-hears :
    (hearing : ℕ → Hearing) (n : ℕ) (events : List LinkEvent)
    → ((k : ℕ) → hearing k ≡ hears)
    → emit_all hearing n events ≡ (events, none)
unfolding emit_all after_event
emit_all-hears hearing n [] well = refl
emit_all-hears hearing n (e ∷ events) well =
    rw (well n) (rw (emit_all-hears hearing (n + 1) events well) refl)

module _ (D : FrameDecoder) where
  -- Chunk after chunk through a decoder.
  unfoldable feed_chunks : D.State → List Bytes → Result ⊥ (List Event × D.State)
  feed_chunks s [] = ok ([], s)
  feed_chunks s (chunk ∷ chunks) = do
    (events, s) ← D.feed s chunk
    (later, s) ← feed_chunks s chunks
    ok (events ++ later, s)

  -- What the listeners are told, and the link, after the decoder's events.
  abbrev after : Link D → Ending → List Event × D.State → List LinkEvent × Link D
  after link ending (events, s) =
      let (told, link) = end_of_pump D hears ending (record link { decoder = s }) in
      (map decoded events ++ told, link)

  -- The pump whose listeners hear every event.
  unfoldable quiet_pump : Link D → List Bytes → Ending → Result ⊥ (List LinkEvent × Link D)
  quiet_pump link [] ending = ok (end_of_pump D hears ending link)
  quiet_pump link (chunk ∷ chunks) ending = do
    (events, decoder) ← D.feed link.decoder chunk
    (later, link) ← quiet_pump (record link { decoder = decoder }) chunks ending
    ok (map decoded events ++ later, link)

  pump-quiet_pump :
      (hearing : ℕ → Hearing) (n : ℕ) (link : Link D) (chunks : List Bytes) (ending : Ending)
      → ((k : ℕ) → hearing k ≡ hears)
      → pump D hearing n link chunks ending ≡ quiet_pump link chunks ending
  unfolding pump quiet_pump after_chunk
  pump-quiet_pump hearing n link [] ending well = rw (well n) refl
  pump-quiet_pump hearing n link (chunk ∷ chunks) ending well =
      >>=-cong (D.feed link.decoder chunk) _ _ (λ (events, s).
        rw (emit_all-hears hearing n (map decoded events) well) (
          rw
            (pump-quiet_pump hearing (n + length events) (record link { decoder = s }) chunks ending
              well)
            refl))

  step :
      (link : Link D) (ending : Ending) (events : List Event)
      → (m : Result ⊥ (List Event × D.State))
      → ((m >>= λ x. ok (after link ending x)) >>= λ (later, l).
          ok (map decoded events ++ later, l))
        ≡ ((m >>= λ (later, s). ok (events ++ later, s)) >>= λ x. ok (after link ending x))
  step link ending events (ok (later, s)) =
      let told : List LinkEvent = (end_of_pump D hears ending (record link { decoder = s })).0 in
      ap
        (λ (e : List LinkEvent).
          ok (e, (end_of_pump D hears ending (record link { decoder = s })).1))
        (sym (append_assoc (map decoded events) (map decoded later) told)
          ∙ ap (λ e. e ++ told) (sym (map-append decoded events later)))
  step link ending events (err e) = absurd e
  step link ending events stuck = refl

  first_chunk :
      (link : Link D) (chunks : List Bytes) (ending : Ending)
      → ((s : D.State)
          → quiet_pump (record link { decoder = s }) chunks ending
            ≡ (feed_chunks s chunks >>= λ x. ok (after link ending x)))
      → (m : Result ⊥ (List Event × D.State))
      → (m >>= λ (events, s).
          (quiet_pump (record link { decoder = s }) chunks ending >>= λ (later, l).
          ok (map decoded events ++ later, l)))
        ≡ ((m >>= λ (events, s). (feed_chunks s chunks >>= λ (later, s). ok (events ++ later, s)))
            >>= λ x. ok (after link ending x))
  first_chunk link chunks ending ih (ok (events, s)) =
      rw (ih s) (step link ending events (feed_chunks s chunks))
  first_chunk link chunks ending ih (err e) = absurd e
  first_chunk link chunks ending ih stuck = refl

  pump-feed_chunks :
      (chunks : List Bytes) (link : Link D) (ending : Ending) (s : D.State)
      → quiet_pump (record link { decoder = s }) chunks ending
        ≡ (feed_chunks s chunks >>= λ x. ok (after link ending x))
  unfolding quiet_pump feed_chunks
  pump-feed_chunks [] link ending s = refl
  pump-feed_chunks (chunk ∷ chunks) link ending s =
      first_chunk link chunks ending (pump-feed_chunks chunks link ending) (D.feed s chunk)

feed_chunks-serial :
    (chunks : List Bytes) (buf : Bytes)
    → feed_chunks serial_decoder buf chunks ≡ Streaming.feed_all buf chunks
unfolding feed_chunks Streaming.feed_all
feed_chunks-serial [] buf = refl
feed_chunks-serial (chunk ∷ chunks) buf =
    >>=-cong (Streaming.feed buf chunk) _ _ (λ (events, s). rw (feed_chunks-serial chunks s) refl)

feed_chunks-tcp :
    (chunks : List Bytes) (buf : Bytes)
    → feed_chunks tcp_decoder buf chunks ≡ LengthPrefix.feed_all buf chunks
unfolding feed_chunks LengthPrefix.feed_all
feed_chunks-tcp [] buf = refl
feed_chunks-tcp (chunk ∷ chunks) buf =
    >>=-cong (LengthPrefix.feed buf chunk) _ _ (λ (events, s). rw (feed_chunks-tcp chunks s) refl)

-- What is told at the end of a stream.
abbrev pub ending_events : Ending → List LinkEvent
ending_events finished = closed ∷ []
ending_events died = error ∷ []
ending_events cancelled = []

end_of_pump-told :
    (D : FrameDecoder) (ending : Ending) (link : Link D)
    → (end_of_pump D hears ending link).0 ≡ ending_events ending
unfolding end_of_pump
end_of_pump-told D finished link = refl
end_of_pump-told D died link = refl
end_of_pump-told D cancelled link = refl

stop-end_of_pump :
    (D : FrameDecoder) (ending : Ending) (link : Link D)
    → stop D (end_of_pump D hears ending link).1 ≡ (
      map decoded (D.flush link.decoder).0,
      record { decoder = (D.flush link.decoder).1; connected = false; seq = link.seq },
    )
unfolding end_of_pump stop
stop-end_of_pump D finished link = refl
stop-end_of_pump D died link = refl
stop-end_of_pump D cancelled link = refl

flush-empties : (buf : Bytes) → (Streaming.flush buf).1 ≡ []
unfolding Streaming.flush
flush-empties [] = refl
flush-empties (x ∷ xs) = refl

flush_prefixed-empties : (buf : Bytes) → (LengthPrefix.flush buf).1 ≡ []
unfolding LengthPrefix.flush
flush_prefixed-empties [] = refl
flush_prefixed-empties (x ∷ xs) = refl

-- The pump of a serial link that has an empty buffer and whose listeners hear every event, none raising
-- an exception and none being interrupted: they are told, in order, what the decoder makes of the
-- whole stream, however it is cut into chunks, and at the end once that the medium ended or failed, and
-- nothing more when the pump was cancelled between two chunks; stopping the link then tells them the
-- bytes of the last, unfinished block, and leaves a link that is not connected and has no buffer.
pub pump_serial :
    (hearing : ℕ → Hearing) (n : ℕ) (connected : Bool) (seq : ℕ) (chunks : List Bytes)
    (ending : Ending)
    → ((k : ℕ) → hearing k ≡ hears)
    → (events : List Event) × (rest : Bytes) × (link' : Link serial_decoder) × (Streaming.feed []
          (flatten chunks)
        ≡ ok (events, rest))
      × (pump serial_decoder hearing n
            (record { decoder = []; connected = connected; seq = seq })
            chunks
            ending
          ≡ ok (map decoded events ++ ending_events ending, link'))
      × (stop serial_decoder link' ≡ (
        map decoded (Streaming.flush rest).0,
        record { decoder = []; connected = false; seq = seq },
      ))
pump_serial hearing n connected seq chunks ending well =
    let link : Link serial_decoder = record { decoder = []; connected = connected; seq = seq } in
    let (events, rest) = scan [] (flatten chunks) in
    let whole : Streaming.feed [] (flatten chunks) ≡ ok (events, rest) =
      feed-scan [] (flatten chunks) in
    (
      events,
      rest,
      (end_of_pump serial_decoder hears ending (record link { decoder = rest })).1,
      whole,
      pump-quiet_pump serial_decoder hearing n link chunks ending well
          ∙ pump-feed_chunks serial_decoder chunks link ending []
          ∙ rw (feed_chunks-serial chunks [] ∙ feed_all-feed chunks ∙ whole)
              (rw (end_of_pump-told serial_decoder ending (record link { decoder = rest })) refl),
      stop-end_of_pump serial_decoder ending (record link { decoder = rest })
          ∙ ap
              (λ d. (
                map decoded (Streaming.flush rest).0,
                record { decoder = d; connected = false; seq = seq },
              ))
              (flush-empties rest),
    )

-- The pump of a TCP link that has an empty buffer and whose listeners hear every event: they are told,
-- in order, what the decoder makes of the whole stream, however it is cut into chunks, and at the end once that the medium ended
-- or failed (nothing when the pump was cancelled); stopping the link then tells them the bytes that
-- are left, and leaves a link that is not connected and has no buffer.
pub pump_tcp :
    (hearing : ℕ → Hearing) (n : ℕ) (connected : Bool) (seq : ℕ) (chunks : List Bytes)
    (ending : Ending)
    → ((k : ℕ) → hearing k ≡ hears)
    → (events : List Event) × (rest : Bytes) × (link' : Link tcp_decoder) × (LengthPrefix.feed []
          (flatten chunks)
        ≡ ok (events, rest))
      × (pump tcp_decoder hearing n
            (record { decoder = []; connected = connected; seq = seq })
            chunks
            ending
          ≡ ok (map decoded events ++ ending_events ending, link'))
      × (stop tcp_decoder link' ≡ (
        map decoded (LengthPrefix.flush rest).0,
        record { decoder = []; connected = false; seq = seq },
      ))
pump_tcp hearing n connected seq chunks ending well =
    let link : Link tcp_decoder = record { decoder = []; connected = connected; seq = seq } in
    let (events, rest, d, seen) = feed_all-Drains chunks [] (short_prefix (omega arith)) in
    (
      events,
      rest,
      (end_of_pump tcp_decoder hears ending (record link { decoder = rest })).1,
      feed-Drains [] (flatten chunks) d,
      pump-quiet_pump tcp_decoder hearing n link chunks ending well
          ∙ pump-feed_chunks tcp_decoder chunks link ending []
          ∙ rw (feed_chunks-tcp chunks [] ∙ seen)
              (rw (end_of_pump-told tcp_decoder ending (record link { decoder = rest })) refl),
      stop-end_of_pump tcp_decoder ending (record link { decoder = rest })
          ∙ ap
              (λ d. (
                map decoded (LengthPrefix.flush rest).0,
                record { decoder = d; connected = false; seq = seq },
              ))
              (flush_prefixed-empties rest),
    )
