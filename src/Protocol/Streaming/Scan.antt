-- ===== src/Protocol/Streaming/Scan.antt =====
-- frames.py, `StreamingDecoder`: `feed` as a scan over the bytes, one at a time.
use espstation.Common.{
  ℕ, zero, suc, ◌<◌, ◌≡◌, ◌≢◌, inl, inr, refl, sym, ap, ◌∙◌, arith, List, [], ◌∷◌, ◌++◌, append-nil,
  append_assoc, none, some, Option-cases, ◌==◌, false, Bool-cases, if◌then◌else◌, Bytes, length,
  take, drop, All, All-append, length-drop, ok, subst,
}
use espstation.Protocol.Streaming.{Event, find_zero, block_events, drain, feed}

-- `block` is the open block.
abbrev pub scan : Bytes → Bytes → List Event × Bytes
scan block [] = ([], block)
scan block (x ∷ xs) =
    let closed = scan [] xs in
    let open_block = scan (block ++ x ∷ []) xs in
    if x == 0 then (block_events block ++ closed.0, closed.1) else open_block

abbrev pub IsNonZero : ℕ → Type 0
IsNonZero b = b ≢ 0

pub scan-block :
    (block xs rest : Bytes) → All IsNonZero xs → scan block (xs ++ rest) ≡ scan (block ++ xs) rest
scan-block block [] rest h = ap (λ b. scan b rest) (sym (append-nil block))
scan-block block (x ∷ xs) rest (nz, h) =
    let other : (x == 0) ≡ false = ground arith in
    rw other (
      scan-block (block ++ x ∷ []) xs rest h
      ∙ ap (λ b. scan b rest) (append_assoc block (x ∷ []) xs))

-- A buffer with a zero at `i`, and one with none.
abbrev ZeroAt : ℕ → Bytes → Type 0
ZeroAt i xs = All IsNonZero (take i xs) × (xs ≡ take i xs ++ 0 ∷ drop (suc i) xs) × (i < length xs)

find_zero_cons :
    (x : ℕ) (xs : Bytes) (i : ℕ)
    → ((j : ℕ) → find_zero xs ≡ some j → ZeroAt j xs)
    → find_zero (x ∷ xs) ≡ some i
    → ZeroAt i (x ∷ xs)
unfolding find_zero
find_zero_cons x xs i ih e = elim (Bool-cases (x == 0)) [
  | inl z ↦
      let i0 : 0 ≡ i = cc (rw z at e) in
      subst (λ k. ZeroAt k (x ∷ xs)) i0 (tt, ap (λ y. y ∷ xs) (ground arith), omega arith)
  | inr nz ↦ elim (Option-cases (find_zero xs)) [
    | inl n ↦ cc (rw (nz, n) at e)
    | inr (j, f) ↦
        let ij : suc j ≡ i = cc (rw (nz, f) at e) in
        let (all, split, lt) = ih j f in
        subst (λ k. ZeroAt k (x ∷ xs)) ij ((ground arith, all), ap (◌∷◌ x) split, omega arith)
  ]
]

find_zero-some : (xs : Bytes) (i : ℕ) → find_zero xs ≡ some i → ZeroAt i xs
find_zero-some [] i e = unfold find_zero in cc
find_zero-some (x ∷ xs) i e = find_zero_cons x xs i (find_zero-some xs) e

find_zero-none : (xs : Bytes) → find_zero xs ≡ none → All IsNonZero xs
unfolding find_zero
find_zero-none [] e = tt
find_zero-none (x ∷ xs) e = elim (Bool-cases (x == 0)) [
  | inl z ↦ cc (rw z at e)
  | inr nz ↦ elim (Option-cases (find_zero xs)) [
    | inl n ↦ (ground arith, find_zero-none xs n)
    | inr (j, f) ↦ cc (rw (nz, f) at e)
  ]
]

drain_step :
    (fuel : ℕ) (buf : Bytes) (events : List Event)
    → length buf < suc fuel
    → ((buf' : Bytes) (events' : List Event)
        → length buf' < fuel
        → drain fuel buf' events' ≡ ok (events' ++ (scan [] buf').0, (scan [] buf').1))
    → drain (suc fuel) buf events ≡ ok (events ++ (scan [] buf).0, (scan [] buf).1)
unfolding drain
drain_step fuel buf events h ih = elim (Option-cases (find_zero buf)) [
  | inl n ↦
      let whole : scan [] buf ≡ ([], buf) =
        ap (scan []) (sym (append-nil buf)) ∙ scan-block [] buf [] (find_zero-none buf n) in
      rw (n, drain) (rw whole (rw append-nil))
  | inr (i, f) ↦
      let (all, split, lt) = find_zero-some buf i f in
      let front : Bytes = take i buf in
      let rest : Bytes = drop (suc i) buf in
      let cut : scan [] buf ≡ (block_events front ++ (scan [] rest).0, (scan [] rest).1) =
        ap (scan []) split ∙ scan-block [] front (0 ∷ rest) all in
      rw (f, drain)
        (ih rest (events ++ block_events front) (omega (arith, length-drop (suc i) buf))
          ∙ rw (cut, append_assoc))
]

drain-scan :
    (fuel : ℕ) (buf : Bytes) (events : List Event)
    → length buf < fuel
    → drain fuel buf events ≡ ok (events ++ (scan [] buf).0, (scan [] buf).1)
drain-scan zero buf events h = absurd (omega arith)
drain-scan (suc fuel) buf events h = drain_step fuel buf events h (drain-scan fuel)

-- `feed` always ends; it scans the buffer with the chunk behind it.
pub feed-scan : (buf chunk : Bytes) → feed buf chunk ≡ ok (scan [] (buf ++ chunk))
unfolding feed
feed-scan buf chunk = drain-scan (suc (length (buf ++ chunk))) (buf ++ chunk) [] (omega arith)

pub scan-append :
    (block xs ys : Bytes)
    → scan block (xs ++ ys)
      ≡ ((scan block xs).0 ++ (scan (scan block xs).1 ys).0, (scan (scan block xs).1 ys).1)
scan-append block [] ys = refl
scan-append block (x ∷ xs) ys = elim (Bool-cases (x == 0)) [
  | inl z ↦ rw z (rw (scan-append [] xs ys, append_assoc))
  | inr nz ↦ rw nz (scan-append (block ++ x ∷ []) xs ys)
]

-- The open block never holds a zero.
pub scan-open : (block xs : Bytes) → All IsNonZero block → All IsNonZero (scan block xs).1
scan-open block [] h = h
scan-open block (x ∷ xs) h = elim (Bool-cases (x == 0)) [
  | inl z ↦ rw z (scan-open [] xs tt)
  | inr nz ↦
      rw nz (
        scan-open (block ++ x ∷ []) xs (All-append IsNonZero block (x ∷ []) h ((ground arith), tt)))
]
