-- ===== src/Transports/LengthPrefix/Steps.antt =====
-- tcp.py, `LengthPrefixDecoder`: the rounds of `feed` as a relation.
use espstation.Common.{
  ℕ, zero, suc, ◌+◌, ◌≤◌, ◌<◌, ◌≡◌, refl, sym, ap, ◌∙◌, subst, arith, List, [], ◌∷◌, ◌++◌,
  append_assoc, append-nil, ltb, true, false, Bool-cases, inl, inr, Bytes, length, length-append,
  length-drop, take, drop, ok,
}
use espstation.Protocol.Packed.{u16_be}
use espstation.Protocol.Frames.{parse}
use espstation.Protocol.Streaming.{Event, parse_or_raw}
use espstation.Transports.LengthPrefix.{drain, feed}

abbrev pub event_of : Bytes → Event
event_of body = parse_or_raw body (parse body)

-- A buffer from which these events are taken, and what is left of it.
pub data Drains : Bytes → List Event → Bytes → Type 0 where
  short_prefix : {buf : Bytes} → length buf < 2 → Drains buf [] buf
  short_body : {buf : Bytes} → 2 ≤ length buf → length buf < 2 + u16_be buf → Drains buf [] buf
  take_body :
      {buf rest : Bytes} {events : List Event}
      → 2 ≤ length buf
      → 2 + u16_be buf ≤ length buf
      → Drains (drop (2 + u16_be buf) buf) events rest
      → Drains buf (event_of (take (u16_be buf) (drop 2 buf)) ∷ events) rest

drained :
    (fuel : ℕ) (buf : Bytes)
    → length buf < fuel
    → (events : List Event) × (rest : Bytes) × Drains buf events rest
drained zero buf h = absurd (omega arith)
drained (suc fuel) buf h = elim (Bool-cases (ltb (length buf) 2)) [
  | inl s ↦ ([], buf, short_prefix (ground arith))
  | inr l ↦ elim (Bool-cases (ltb (length buf) (2 + u16_be buf))) [
    | inl s ↦ ([], buf, short_body (ground arith) (ground arith))
    | inr k ↦
        let (events, rest, d) =
          drained fuel (drop (2 + u16_be buf) buf)
            (ground (arith, length-drop (2 + u16_be buf) buf)) in
        (
          event_of (take (u16_be buf) (drop 2 buf)) ∷ events,
          rest,
          take_body (ground arith) (ground arith) d,
        )
  ]
]

-- Every buffer can be drained.
pub drains : (buf : Bytes) → (events : List Event) × (rest : Bytes) × Drains buf events rest
drains buf = drained (suc (length buf)) buf (omega arith)

-- The loop does what the relation says, whenever it has the fuel.
drain-Drains :
    (fuel : ℕ) (buf : Bytes) (before : List Event) {events : List Event} {rest : Bytes}
    → length buf < fuel
    → Drains buf events rest
    → drain fuel buf before ≡ ok (before ++ events, rest)
unfolding drain
drain-Drains zero buf before h d = absurd (omega arith)
drain-Drains (suc fuel) buf before h (short_prefix s) =
    let small : ltb (length buf) 2 ≡ true = ground arith in rw small (rw append-nil refl)
drain-Drains (suc fuel) buf before h (short_body l s) =
    let enough : ltb (length buf) 2 ≡ false = ground arith in
    let small : ltb (length buf) (2 + u16_be buf) ≡ true = ground arith in
    rw enough (rw small (rw append-nil refl))
drain-Drains (suc fuel) buf before h (take_body {rest = rest} {events = events} l k d) =
    let enough : ltb (length buf) 2 ≡ false = ground arith in
    let whole : ltb (length buf) (2 + u16_be buf) ≡ false = ground arith in
    let body : Bytes = take (u16_be buf) (drop 2 buf) in
    rw enough (
      rw whole (
        drain-Drains fuel (drop (2 + u16_be buf) buf) (before ++ event_of body ∷ [])
          (omega (arith, length-drop (2 + u16_be buf) buf)) d
        ∙ ap (λ (e : List Event). ok (e, rest)) (append_assoc before (event_of body ∷ []) events)))

-- `feed` always ends; it drains the buffer with the chunk behind it.
pub feed-Drains :
    (buf chunk : Bytes) {events : List Event} {rest : Bytes}
    → Drains (buf ++ chunk) events rest
    → feed buf chunk ≡ ok (events, rest)
unfolding feed
feed-Drains buf chunk d =
    drain-Drains (suc (length (buf ++ chunk))) (buf ++ chunk) [] (omega arith) d

take-append_left : (n : ℕ) (xs ys : Bytes) → n ≤ length xs → take n (xs ++ ys) ≡ take n xs
take-append_left zero xs ys h = refl
take-append_left (suc n) [] ys h = absurd (omega arith)
take-append_left (suc n) (x ∷ xs) ys h = ap (◌∷◌ x) (take-append_left n xs ys (omega arith))

drop-append_left : (n : ℕ) (xs ys : Bytes) → n ≤ length xs → drop n (xs ++ ys) ≡ drop n xs ++ ys
drop-append_left zero xs ys h = refl
drop-append_left (suc n) [] ys h = absurd (omega arith)
drop-append_left (suc n) (x ∷ xs) ys h = drop-append_left n xs ys (omega arith)

u16_be-append : (xs ys : Bytes) → 2 ≤ length xs → u16_be (xs ++ ys) ≡ u16_be xs
u16_be-append [] ys h = absurd (omega arith)
u16_be-append (x ∷ []) ys h = absurd (omega arith)
u16_be-append (x ∷ y ∷ xs) ys h = refl

-- Bytes that come later are drained behind what was left.
pub Drains-append :
    {buf rest rest' : Bytes} {events later : List Event} (more : Bytes)
    → Drains buf events rest
    → Drains (rest ++ more) later rest'
    → Drains (buf ++ more) (events ++ later) rest'
Drains-append more (short_prefix s) k = k
Drains-append more (short_body l s) k = k
Drains-append {buf} {rest' = rest'} {later = later} more (take_body {events = events} l w d) k =
    let same : u16_be (buf ++ more) ≡ u16_be buf = u16_be-append buf more l in
    let size : length (buf ++ more) ≡ length buf + length more = length-append buf more in
    let behind : drop (2 + u16_be (buf ++ more)) (buf ++ more) ≡ drop (2 + u16_be buf) buf ++ more =
      ap (λ n. drop (2 + n) (buf ++ more)) same ∙ drop-append_left (2 + u16_be buf) buf more w in
    let body : take (u16_be (buf ++ more)) (drop 2 (buf ++ more)) ≡ take (u16_be buf) (drop 2 buf) =
      ap (λ n. take n (drop 2 (buf ++ more))) same
      ∙ ap (take (u16_be buf)) (drop-append_left 2 buf more l)
      ∙ take-append_left (u16_be buf) (drop 2 buf) more (omega (arith, length-drop 2 buf)) in
    subst (λ b. Drains (buf ++ more) (event_of b ∷ (events ++ later)) rest') body
      (take_body (omega arith) (omega (arith, same))
        (subst (λ b. Drains b (events ++ later) rest') (sym behind) (Drains-append more d k)))

-- What is left is a buffer from which nothing can be taken.
pub Drains-rest :
    {buf rest : Bytes} {events : List Event} → Drains buf events rest → Drains rest [] rest
Drains-rest (short_prefix s) = short_prefix s
Drains-rest (short_body l s) = short_body l s
Drains-rest (take_body l w d) = Drains-rest d
