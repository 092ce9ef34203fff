-- ===== src/Morse/Key.antt =====
-- morse_link.py, `Key`: the operator's key with its debounce.
use espstation.Common.{
  ap, ℕ, ◌+◌, ◌-◌, ◌≤◌, ◌≡◌, arith, List, [], ◌∷◌, Option, none, some, not, ◌&&◌, ◌==◌, ltb, leb,
  if◌then◌else◌,
}
use espstation.Morse.Clock.{wrapped}

pub record Key : Type 0 where
  pub debounce_ms : ℕ
  pub stable : ℕ
  pub candidate : ℕ
  pub t_candidate_ms : ℕ
  pub raw_changes : ℕ
  pub accepted : ℕ

unfoldable pub sample : Key → ℕ → ℕ → Key × Option ℕ
sample key reading now_ms =
    let reading = if reading == 0 then 0 else 1 in
    if not (reading == key.candidate)
    then (
      record key {
        candidate = reading;
        t_candidate_ms = now_ms;
        raw_changes = key.raw_changes + 1;
      },
      none,
    )
    else if not (key.candidate == key.stable)
        && leb key.debounce_ms (wrapped now_ms key.t_candidate_ms)
    then (record key { stable = key.candidate; accepted = key.accepted + 1 }, some key.candidate)
    else (key, none)

unfoldable pub bounces : Key → ℕ
bounces key = if ltb key.raw_changes key.accepted then 0 else key.raw_changes - key.accepted

-- The key as `__init__` makes it.
abbrev pub idle_key : ℕ → Key
idle_key debounce_ms = record {
  debounce_ms = debounce_ms;
  stable = 0;
  candidate = 0;
  t_candidate_ms = 0;
  raw_changes = 0;
  accepted = 0;
}

-- Readings of the pin at their times.
unfoldable pub sample_all : Key → List (ℕ × ℕ) → Key × List (Option ℕ)
sample_all key [] = (key, [])
sample_all key ((reading, now_ms) ∷ polls) =
    let (key, edge) = sample key reading now_ms in
    let (key, edges) = sample_all key polls in (key, edge ∷ edges)

-- How many edges were accepted.
abbrev pub count_edges : List (Option ℕ) → ℕ
count_edges [] = 0
count_edges (none ∷ edges) = count_edges edges
count_edges (some level ∷ edges) = 1 + count_edges edges

-- Accepted edges are changes of the reading; one more has changed while the candidate is not accepted.
abbrev IsCounted : Key → Type 0
IsCounted key = key.accepted + (if key.candidate == key.stable then 0 else 1) ≤ key.raw_changes

sample-IsCounted :
    (key : Key) (reading now_ms : ℕ) → IsCounted key → IsCounted (sample key reading now_ms).0
unfolding sample
sample-IsCounted key reading now_ms h = ground arith

sample-accepted :
    (key : Key) (reading now_ms : ℕ)
    → (sample key reading now_ms).0.accepted
      ≡ key.accepted + count_edges ((sample key reading now_ms).1 ∷ [])
unfolding sample
sample-accepted key reading now_ms = ground arith

count_edges-cons :
    (e : Option ℕ) (edges : List (Option ℕ))
    → count_edges (e ∷ edges) ≡ count_edges (e ∷ []) + count_edges edges
count_edges-cons none edges = omega arith
count_edges-cons (some level) edges = omega arith

sample_all-IsCounted :
    (polls : List (ℕ × ℕ)) (key : Key)
    → IsCounted key
    → IsCounted (sample_all key polls).0
      × ((sample_all key polls).0.accepted ≡ key.accepted + count_edges (sample_all key polls).1)
unfolding sample_all
sample_all-IsCounted [] key h = (h, omega arith)
sample_all-IsCounted ((reading, now_ms) ∷ polls) key h =
    let (counted, sum) =
      sample_all-IsCounted polls (sample key reading now_ms).0
        (sample-IsCounted key reading now_ms h) in
    (
      counted,
      omega (
        arith,
        sum,
        sample-accepted key reading now_ms,
        count_edges-cons (sample key reading now_ms).1
            (sample_all (sample key reading now_ms).0 polls).1,
      ),
    )

-- How often the reading changes, a reading of 0 being low and every other high, from a level on.
abbrev pub changes : ℕ → List (ℕ × ℕ) → ℕ
changes level [] = 0
changes level ((reading, now_ms) ∷ polls) =
    let next = if reading == 0 then 0 else 1 in
    (if next == level then 0 else 1) + changes next polls

sample-changes :
    (key : Key) (reading now_ms : ℕ)
    → ((sample key reading now_ms).0.candidate ≡ (if reading == 0 then 0 else 1))
      × ((sample key reading now_ms).0.raw_changes
          ≡ key.raw_changes + (if (if reading == 0 then 0 else 1) == key.candidate then 0 else 1))
unfolding sample
sample-changes key reading now_ms = ground arith

sample_all-changes :
    (polls : List (ℕ × ℕ)) (key : Key)
    → (sample_all key polls).0.raw_changes ≡ key.raw_changes + changes key.candidate polls
unfolding sample_all
sample_all-changes [] key = omega arith
sample_all-changes ((reading, now_ms) ∷ polls) key =
    let (level, counted) = sample-changes key reading now_ms in
    let rest = sample_all-changes polls (sample key reading now_ms).0 in
    let same = ap (λ (l : ℕ). changes l polls) level in omega (arith, counted, rest, same)

-- From an idle key, whatever is read at whatever times: the edges that are given back, and the bounces
-- that are counted, add up to the changes of the reading, which counts as low at first and as high
-- wherever it is not 0; so never more edges are accepted than the reading changed.
pub bounces-sample_all :
    (debounce_ms : ℕ) (polls : List (ℕ × ℕ))
    → let r : Key × List (Option ℕ) = sample_all (idle_key debounce_ms) polls in
      (r.0.accepted ≡ count_edges r.1) × (bounces r.0 + count_edges r.1 ≡ changes 0 polls)
unfolding bounces
bounces-sample_all debounce_ms polls =
    let (counted, sum) = sample_all-IsCounted polls (idle_key debounce_ms) (omega arith) in
    let key : Key = (sample_all (idle_key debounce_ms) polls).0 in
    let fewer : key.accepted ≤ key.raw_changes = omega (arith, counted) in
    let raw = sample_all-changes polls (idle_key debounce_ms) in
    (omega (arith, sum), ground (arith, fewer, sum, raw))
