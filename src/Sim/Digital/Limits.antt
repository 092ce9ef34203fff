-- ===== src/Sim/Digital/Limits.antt =====
-- transports/sim/node.py, `SimNode._dio_event_limited`: events behind a rate limit.
use espstation.Common.{
  ℕ, suc, ◌+◌, ◌/◌, ◌≤◌, ◌<◌, ◌≡◌, refl, ap, ◌∙◌, arith, List, [], ◌∷◌, ◌++◌, Option, some, true,
  if◌then◌else◌, Bool-cases, inl, inr, length,
}
use espstation.Common.Dict.{get, put, get-put}
use espstation.Dio.RateLimit.{RateLimit, allow, take_suppressed, mask32_ms}
use espstation.Sim.Digital.{
  DioRuntime, LimitKey, limit_key, same_limit, same_limit_iff, Event, Output, event, rtt_sample,
  limiter_of, limiter_or, dio_event_limited,
}

-- The events that were tried for one key, at these times.
unfoldable pub try_all : DioRuntime → LimitKey → List (ℕ × Event) → DioRuntime × List Output
try_all dio key [] = (dio, [])
try_all dio key ((now_us, e) ∷ calls) =
    let (dio, out) = dio_event_limited dio key now_us e in
    let (dio, later) = try_all dio key calls in (dio, out ++ later)

-- What outputs account for: each event, and the suppressed ones that it reports.
abbrev pub accounted : List Output → ℕ
accounted [] = 0
accounted (event e suppressed ∷ out) = suc suppressed + accounted out
accounted (rtt_sample rtt ∷ out) = accounted out

-- The refused events that are still to be reported.
unfoldable pub pending : DioRuntime → LimitKey → ℕ
unfolding limiter_of limiter_or
pending dio key = (limiter_of dio key).suppressed

accounted-append : (xs ys : List Output) → accounted (xs ++ ys) ≡ accounted xs + accounted ys
accounted-append [] ys = omega arith
accounted-append (event e suppressed ∷ xs) ys = omega (arith, accounted-append xs ys)
accounted-append (rtt_sample rtt ∷ xs) ys = accounted-append xs ys

-- A call of `allow` refuses nothing without counting it, below the counter's maximum.
allow-suppressed :
    (limiter : RateLimit) (now : ℕ)
    → limiter.suppressed < mask32_ms
    → (allow limiter now).0.suppressed
      ≡ (if (allow limiter now).1 then limiter.suppressed else limiter.suppressed + 1)
unfolding allow
allow-suppressed limiter now room = ground arith

same_limit_self : (key : LimitKey) → same_limit key key ≡ true
same_limit_self key = (same_limit_iff key key).1 refl

pending-put :
    (dio : DioRuntime) (key : LimitKey) (limiter : RateLimit)
    → pending (record dio { limiters = put key limiter dio.limiters }) key ≡ limiter.suppressed
unfolding pending limiter_of limiter_or limit_key
pending-put dio key limiter =
    let found : get key (put key limiter dio.limiters) ≡ some limiter =
      get-put key key limiter dio.limiters ∙ rw (same_limit_self key) refl in
    ap
      (λ (o : Option RateLimit).
        (limiter_or o (record dio { limiters = put key limiter dio.limiters }) key).suppressed)
      found

dio_event_limited-accounts :
    (dio : DioRuntime) (key : LimitKey) (now_us : ℕ) (e : Event)
    → pending dio key < mask32_ms
    → accounted (dio_event_limited dio key now_us e).1
        + pending (dio_event_limited dio key now_us e).0 key
      ≡ pending dio key + 1
unfolding dio_event_limited take_suppressed allow pending
dio_event_limited-accounts dio key now_us e room =
    let limiter : RateLimit = limiter_of dio key in
    let counted = allow-suppressed limiter (now_us / 1000) (unfold pending in room) in
    elim (Bool-cases (allow limiter (now_us / 1000)).1) [
      | inl admitted ↦
          let same : (allow limiter (now_us / 1000)).0.suppressed ≡ limiter.suppressed =
            counted ∙ rw admitted refl in
          let cleared : RateLimit = record ((allow limiter (now_us / 1000)).0) { suppressed = 0 } in
          rw admitted (omega (arith, same, pending-put dio key cleared))
      | inr refused ↦
          let more : (allow limiter (now_us / 1000)).0.suppressed ≡ limiter.suppressed + 1 =
            counted ∙ rw refused refl in
          let counting : RateLimit = (allow limiter (now_us / 1000)).0 in
          rw refused (omega (arith, more, pending-put dio key counting))
    ]

-- No event behind a limit goes missing: of any calls for one key, below the maximum of the counter,
-- each has been emitted, or is one of those that a later event reports as suppressed, or still waits
-- in the limiter to be reported, together with those that waited there before.
pub try_all-accounts :
    (dio : DioRuntime) (key : LimitKey) (calls : List (ℕ × Event))
    → pending dio key + length calls ≤ mask32_ms
    → accounted (try_all dio key calls).1 + pending (try_all dio key calls).0 key
      ≡ pending dio key + length calls
unfolding try_all
try_all-accounts dio key [] room = omega arith
try_all-accounts dio key ((now_us, e) ∷ calls) room =
    let next : DioRuntime = (dio_event_limited dio key now_us e).0 in
    let out : List Output = (dio_event_limited dio key now_us e).1 in
    let one = dio_event_limited-accounts dio key now_us e (omega arith) in
    omega (
      arith,
      accounted-append out (try_all next key calls).1,
      try_all-accounts next key calls (omega (arith, one)),
      one,
    )
