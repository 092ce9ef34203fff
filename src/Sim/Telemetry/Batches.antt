-- ===== src/Sim/Telemetry/Batches.antt =====
-- transports/sim/node.py, `_send_telemetry_batches`: the messages carry the samples.
use espstation.Common.{
  true, false, All-take, All-drop, ℕ, zero, suc, ◌+◌, ◌-◌, ◌/◌, ◌≤◌, ◌<◌, ◌≡◌, refl, ap, sym, ◌∙◌,
  arith, List, [], ◌∷◌, ◌++◌, append_assoc, Bool, length, take, drop, map, All, length-drop,
  take-append-drop,
}
use espstation.Sim.Telemetry.{
  Timed, Sample, Telemetry, max_samples, sample_at, first_ts, batch_of, batch_rounds, batches,
  send_telemetry_batches, sample_packs, samples_pack, telemetry_packs, send_messages, flags_of,
}

flags_small : (replay gap : Bool) → flags_of replay gap < 0x100
unfolding flags_of
flags_small replay gap = ground arith

module _ {V : Type 0} where
  -- A sample of a message, with its own time.
  abbrev pub timed_sample : ℕ → Sample V → Timed V
  timed_sample base_ts s = record {
    ts_ms = base_ts + s.dt_ms;
    due = record { ch = s.ch; enc = s.enc; value = s.value };
  }

  -- What the station reads from a message, and from several.
  abbrev pub samples_of : Telemetry V → List (Timed V)
  samples_of t = map (timed_sample t.base_ts_ms) t.samples

  abbrev pub all_samples : List (Telemetry V) → List (Timed V)
  all_samples [] = []
  all_samples (t ∷ ts) = samples_of t ++ all_samples ts

  -- Times that never go back.
  abbrev pub IsChronological : ℕ → List (Timed V) → Type 0
  IsChronological since [] = Unit
  IsChronological since (e ∷ entries) = (since ≤ e.ts_ms) × IsChronological e.ts_ms entries

  -- A message of 1 to 64 samples.
  abbrev pub IsBatch : Telemetry V → Type 0
  IsBatch t = (1 ≤ length t.samples) × (length t.samples ≤ max_samples)

  -- The samples of messages, one after the other.
  pub all_samples-append :
      (xs ys : List (Telemetry V)) → all_samples (xs ++ ys) ≡ all_samples xs ++ all_samples ys
  all_samples-append [] ys = refl
  all_samples-append (t ∷ xs) ys =
      ap (◌++◌ (samples_of t)) (all_samples-append xs ys)
      ∙ sym (append_assoc (samples_of t) (all_samples xs) (all_samples ys))

  -- An earlier start.
  pub IsChronological-weaken :
      (since since' : ℕ) (entries : List (Timed V))
      → since' ≤ since
      → IsChronological since entries
      → IsChronological since' entries
  IsChronological-weaken since since' [] le h = tt
  IsChronological-weaken since since' (e ∷ entries) le (h, hs) = (omega arith, hs)

  IsChronological-All :
      (since : ℕ) (entries : List (Timed V))
      → IsChronological since entries
      → All (λ e. since ≤ e.ts_ms) entries
  IsChronological-All since [] h = tt
  IsChronological-All since (e ∷ entries) (h, hs) =
      (h, IsChronological-All since entries (IsChronological-weaken e.ts_ms since entries h hs))

  samples_back :
      (base_ts : ℕ) (chunk : List (Timed V))
      → All (λ e. base_ts ≤ e.ts_ms) chunk
      → map (timed_sample base_ts) (map (sample_at base_ts) chunk) ≡ chunk
  unfolding sample_at
  samples_back base_ts [] h = refl
  samples_back base_ts (e ∷ chunk) (h, hs) =
      let same : base_ts + (e.ts_ms - base_ts) ≡ e.ts_ms = omega arith in
      λ i. record e { ts_ms = same i } ∷ samples_back base_ts chunk hs i

  batch_of-samples :
      (replay gap : Bool) (since : ℕ) (chunk : List (Timed V))
      → IsChronological since chunk
      → samples_of (batch_of replay gap chunk) ≡ chunk
  unfolding batch_of
  batch_of-samples replay gap since [] h = refl
  batch_of-samples replay gap since (e ∷ chunk) (h, hs) =
      samples_back e.ts_ms (e ∷ chunk) (omega arith, IsChronological-All e.ts_ms chunk hs)

  IsChronological-take :
      (since n : ℕ) (entries : List (Timed V))
      → IsChronological since entries
      → IsChronological since (take n entries)
  IsChronological-take since zero entries h = tt
  IsChronological-take since (suc n) [] h = tt
  IsChronological-take since (suc n) (e ∷ entries) (h, hs) =
      (h, IsChronological-take e.ts_ms n entries hs)

  IsChronological-drop :
      (since n : ℕ) (entries : List (Timed V))
      → IsChronological since entries
      → IsChronological since (drop n entries)
  IsChronological-drop since zero entries h = h
  IsChronological-drop since (suc n) [] h = tt
  IsChronological-drop since (suc n) (e ∷ entries) (h, hs) =
      IsChronological-weaken e.ts_ms since (drop n entries) h
        (IsChronological-drop e.ts_ms n entries hs)

  length-map_sample :
      (base : ℕ) (chunk : List (Timed V)) → length (map (sample_at base) chunk) ≡ length chunk
  length-map_sample base [] = refl
  length-map_sample base (e ∷ chunk) = ap suc (length-map_sample base chunk)

  take_long :
      (n : ℕ) (entries : List (Timed V))
      → (length (take n entries) ≤ n) × (length (take n entries) ≤ length entries)
  take_long zero entries = (omega arith, omega arith)
  take_long (suc n) [] = (omega arith, omega arith)
  take_long (suc n) (e ∷ entries) = let (a, b) = take_long n entries in (omega arith, omega arith)

  take_some :
      (n : ℕ) (entries : List (Timed V)) → 0 < length entries → 0 < n → 0 < length (take n entries)
  take_some zero entries h k = absurd (omega arith)
  take_some (suc n) [] h k = absurd (omega arith)
  take_some (suc n) (e ∷ entries) h k = omega arith

  batch_of-IsBatch :
      (replay gap : Bool) (chunk : List (Timed V))
      → 0 < length chunk
      → length chunk ≤ max_samples
      → IsBatch (batch_of replay gap chunk)
  unfolding batch_of
  batch_of-IsBatch replay gap chunk some_ few = (
    omega (arith, length-map_sample (first_ts chunk) chunk),
    omega (arith, length-map_sample (first_ts chunk) chunk),
  )

  rounds_samples :
      (k : ℕ) (replay gap : Bool) (entries : List (Timed V))
      → k ≡ (length entries + (max_samples - 1)) / max_samples
      → IsChronological 0 entries
      → (all_samples (batch_rounds k replay gap entries) ≡ entries)
        × All IsBatch (batch_rounds k replay gap entries)
  unfolding batch_rounds
  rounds_samples zero replay gap [] e h = (refl, tt)
  rounds_samples zero replay gap (x ∷ entries) e h = absurd (omega arith)
  rounds_samples (suc k) replay gap entries e h =
      let chunk : List (Timed V) = take max_samples entries in
      let rest : List (Timed V) = drop max_samples entries in
      let (all, small) =
        rounds_samples k replay gap rest (omega (arith, length-drop max_samples entries))
          (IsChronological-drop 0 max_samples entries h) in
      (
        ap (λ (l : List (Timed V)). l ++ all_samples (batch_rounds k replay gap rest))
              (batch_of-samples replay gap 0 chunk (IsChronological-take 0 max_samples entries h))
            ∙ ap (◌++◌ chunk) all
            ∙ take-append-drop max_samples entries,
        (
          batch_of-IsBatch replay gap chunk
              (take_some max_samples entries (omega arith) (omega arith))
              (take_long max_samples entries).0,
          small,
        ),
      )

  -- Samples whose times never go back are split into messages of 1 to 64 samples each, from which the
  -- station reads the same samples with the same times, in the same order.
  pub batches-samples :
      (replay gap : Bool) (entries : List (Timed V))
      → IsChronological 0 entries
      → (all_samples (batches replay gap entries) ≡ entries)
        × All IsBatch (batches replay gap entries)
  unfolding batches
  batches-samples replay gap entries h =
      rounds_samples ((length entries + (max_samples - 1)) / max_samples) replay gap entries refl h

  -- A sample that packs: its channel, its encoding and its value do, and its time stands in a window of
  -- 65536 ms, within the range of a message's time.
  pub record InWindow (packs : ℕ → V → Bool) (start : ℕ) (e : Timed V) : Type 0 where
    pub from : start ≤ e.ts_ms
    pub until : e.ts_ms ≤ start + 0xffff
    pub early : e.ts_ms < 0x100000000
    pub channel : e.due.ch < 0x100
    pub encoding : e.due.enc < 0x100
    pub value : packs e.due.enc e.due.value ≡ true

  sample_at-packs :
      (packs : ℕ → V → Bool) (start base : ℕ) (e : Timed V)
      → start ≤ base
      → InWindow packs start e
      → sample_packs packs (sample_at base e) ≡ true
  unfolding sample_at
  sample_at-packs packs start base e le h =
      rw (h.value) (ground (arith, le, h.from, h.until, h.channel, h.encoding))

  map-packs :
      (packs : ℕ → V → Bool) (start base : ℕ) (chunk : List (Timed V))
      → start ≤ base
      → All (InWindow packs start) chunk
      → samples_pack packs (map (sample_at base) chunk) ≡ true
  map-packs packs start base [] le h = refl
  map-packs packs start base (e ∷ chunk) le (h, hs) =
      rw (sample_at-packs packs start base e le h) (map-packs packs start base chunk le hs)

  batch_of-packs :
      (packs : ℕ → V → Bool) (replay gap : Bool) (start : ℕ) (chunk : List (Timed V))
      → IsBatch (batch_of replay gap chunk)
      → All (InWindow packs start) chunk
      → telemetry_packs packs (batch_of replay gap chunk) ≡ true
  unfolding batch_of
  batch_of-packs packs replay gap start [] (some_, few) h = absurd (omega arith)
  batch_of-packs packs replay gap start (e ∷ chunk) (some_, few) (h, hs) =
      let all = map-packs packs start e.ts_ms (e ∷ chunk) h.from (h, hs) in
      rw all (ground (arith, some_, few, h.early, flags_small replay gap))

  pub send_messages_whole :
      (packs : ℕ → V → Bool) (ts : List (Telemetry V))
      → All (λ t. telemetry_packs packs t ≡ true) ts
      → send_messages packs ts ≡ (ts, false)
  unfolding send_messages
  send_messages_whole packs [] h = refl
  send_messages_whole packs (t ∷ ts) (h, hs) = rw h (rw (send_messages_whole packs ts hs) refl)

  rounds_pack :
      (k : ℕ) (packs : ℕ → V → Bool) (replay gap : Bool) (start : ℕ) (entries : List (Timed V))
      → All IsBatch (batch_rounds k replay gap entries)
      → All (InWindow packs start) entries
      → All (λ t. telemetry_packs packs t ≡ true) (batch_rounds k replay gap entries)
  unfolding batch_rounds
  rounds_pack zero packs replay gap start entries small h = tt
  rounds_pack (suc k) packs replay gap start entries (one, small) h = (
    batch_of-packs packs replay gap start (take max_samples entries) one
        (All-take (InWindow packs start) max_samples entries h),
    rounds_pack k packs replay gap start (drop max_samples entries) small
        (All-drop (InWindow packs start) max_samples entries h),
  )

  -- Samples whose times never go back and stand within 65536 ms are sent, and nothing raises.
  pub send_telemetry_batches_whole :
      (packs : ℕ → V → Bool) (replay gap : Bool) (start : ℕ) (entries : List (Timed V))
      → IsChronological 0 entries
      → All (InWindow packs start) entries
      → send_telemetry_batches packs replay gap entries ≡ (batches replay gap entries, false)
  unfolding send_telemetry_batches batches
  send_telemetry_batches_whole packs replay gap start entries h within =
      send_messages_whole packs (batches replay gap entries) (
        rounds_pack ((length entries + (max_samples - 1)) / max_samples) packs replay gap start
          entries (rounds_samples _ replay gap entries refl h).1 within)
