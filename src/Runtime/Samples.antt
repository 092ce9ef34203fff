-- ===== src/Runtime/Samples.antt =====
-- runtime.py, `_on_telemetry` and `_note_unknown_channel`: the samples of a message, sorted into those
-- that are stored and those of channels that the node never declared. The store's clock conversion
-- (`to_epoch`) is a parameter; the value is kept as it is converted.
use espstation.Common.{
  ℕ, ◌+◌, ◌≡◌, refl, ap, ◌∙◌, arith, List, [], ◌∷◌, Option, none, some, ◌==◌, if◌then◌else◌, Result,
  ok, err, stuck, Bool-cases, inl, inr,
}
use espstation.Common.Dict.{Dict, Key, number_key, get, put, get-put}
use espstation.Protocol.NodeDatabase.{NodeDatabase, Value, Floats, UnknownChannel, convert}
use espstation.Sim.Telemetry.{Sample}

count_of : Option ℕ → ℕ
count_of none = 0
count_of (some n) = n

-- `counts[channel_id] = counts.get(channel_id, 0) + 1`, in the counts of one node.
unfoldable pub note_unknown_channel : Dict ℕ ℕ → ℕ → Dict ℕ ℕ
unfolding count_of
note_unknown_channel counts channel_id =
    put channel_id (count_of (get channel_id counts) + 1) counts

-- The samples dropped so far for a channel.
unfoldable pub dropped : Dict ℕ ℕ → ℕ → ℕ
unfolding count_of
dropped counts channel_id = count_of (get channel_id counts)

-- (channel, time, value)
abbrev pub Row : Type 0 → Type 0 → Type 0
Row F T = ℕ × T × Value F

-- The rows and the samples of a channel, counted.
abbrev pub rows_of : {F T : Type 0} → ℕ → List (Row F T) → ℕ
rows_of ch [] = 0
rows_of ch ((c, ts, value) ∷ rows) = (if c == ch then 1 else 0) + rows_of ch rows

abbrev pub samples_of : {V : Type 0} → ℕ → List (Sample V) → ℕ
samples_of ch [] = 0
samples_of ch (s ∷ samples) = (if s.ch == ch then 1 else 0) + samples_of ch samples

-- A sample whose value could be converted is a row; another one (`stuck` never comes) is not.
sort_in :
    {K F T : Type 0}
    → Result (UnknownChannel K) (Value F)
    → ℕ
    → T
    → List (Row F T) × Dict ℕ ℕ
    → List (Row F T) × Dict ℕ ℕ
sort_in (ok value) ch ts (rows, counts) = ((ch, ts, value) ∷ rows, counts)
sort_in (err e) ch ts later = later
sort_in stuck ch ts later = later

noted : {K F : Type 0} → Result (UnknownChannel K) (Value F) → ℕ → Dict ℕ ℕ → Dict ℕ ℕ
noted (ok value) ch counts = counts
noted (err e) ch counts = note_unknown_channel counts ch
noted stuck ch counts = note_unknown_channel counts ch

dropped-note :
    (counts : Dict ℕ ℕ) (c ch : ℕ)
    → dropped (note_unknown_channel counts c) ch ≡ (if c == ch then 1 else 0) + dropped counts ch
unfolding dropped note_unknown_channel
dropped-note counts c ch = elim (Bool-cases (c == ch)) [
  | inl same ↦
      let here : c ≡ ch = ground arith in
      let found : get ch (put c (count_of (get c counts) + 1) counts)
          ≡ some (count_of (get c counts) + 1) =
        get-put ch c (count_of (get c counts) + 1) counts ∙ rw same refl in
      ap count_of found ∙ ap (λ (n : ℕ). count_of (get n counts) + 1) here ∙ rw same (omega arith)
  | inr other ↦
      let kept : get ch (put c (count_of (get c counts) + 1) counts) ≡ get ch counts =
        get-put ch c (count_of (get c counts) + 1) counts ∙ rw other refl in
      ap count_of kept ∙ rw other (omega arith)
]

sort_in-counts :
    {K F T : Type 0} (value : Result (UnknownChannel K) (Value F)) (ch : ℕ) (ts : T)
    (counts : Dict ℕ ℕ) (later : Dict ℕ ℕ → List (Row F T) × Dict ℕ ℕ) (c more : ℕ)
    → ((counts : Dict ℕ ℕ)
        → rows_of c (later counts).0 + dropped (later counts).1 c ≡ more + dropped counts c)
    → rows_of c (sort_in value ch ts (later (noted value ch counts))).0
        + dropped (sort_in value ch ts (later (noted value ch counts))).1 c
      ≡ (if ch == c then 1 else 0) + more + dropped counts c
unfolding sort_in noted
sort_in-counts (ok value) ch ts counts later c more h = omega (arith, h counts)
sort_in-counts (err e) ch ts counts later c more h =
    omega (arith, h (note_unknown_channel counts ch), dropped-note counts ch c)
sort_in-counts stuck ch ts counts later c more h =
    omega (arith, h (note_unknown_channel counts ch), dropped-note counts ch c)

module _ {K F T : Type 0} ⦃key : Key K⦄ (floats : Floats F) (to_epoch : ℕ → T) where
  -- `ndb.convert`, or the value itself for a node that has no database.
  value_for : Option (NodeDatabase K F) → Sample (Value F) → Result (UnknownChannel K) (Value F)
  value_for none s = ok s.value
  value_for (some ndb) s = convert floats ndb s.ch s.value

  -- The loop of `_on_telemetry`: the rows, and the counts of the node.
  unfoldable pub sort_samples :
      Option (NodeDatabase K F) → ℕ → List (Sample (Value F)) → Dict ℕ ℕ → List (Row F T) × Dict ℕ ℕ
  unfolding value_for sort_in noted
  sort_samples ndb base_ts [] counts = ([], counts)
  sort_samples ndb base_ts (s ∷ samples) counts =
      let value = value_for ndb s in
      sort_in value s.ch (to_epoch (base_ts + s.dt_ms))
        (sort_samples ndb base_ts samples (noted value s.ch counts))

  -- No sample is dropped in silence: for every channel, the rows that are stored and the growth of the
  -- channel's count of dropped samples add up to the samples of the channel in the message.
  pub sort_samples-counts :
      (ndb : Option (NodeDatabase K F)) (base_ts : ℕ) (samples : List (Sample (Value F)))
      (counts : Dict ℕ ℕ) (ch : ℕ)
      → rows_of ch (sort_samples ndb base_ts samples counts).0
          + dropped (sort_samples ndb base_ts samples counts).1 ch
        ≡ samples_of ch samples + dropped counts ch
  unfolding sort_samples
  sort_samples-counts ndb base_ts [] counts ch = omega arith
  sort_samples-counts ndb base_ts (s ∷ samples) counts ch =
      sort_in-counts (value_for ndb s) s.ch (to_epoch (base_ts + s.dt_ms)) counts
        (λ counts. sort_samples ndb base_ts samples counts) ch (samples_of ch samples)
        (λ counts. sort_samples-counts ndb base_ts samples counts ch)
