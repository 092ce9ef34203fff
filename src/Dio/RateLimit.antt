-- ===== src/Dio/RateLimit.antt =====
-- dio_link.py, `RateLimit`: a window that admits so many events. `x & 0xFFFFFFFF` is `x % 2 ^ 32`.
use espstation.Common.{
  ℕ, suc, ◌+◌, ◌-◌, ◌%◌, ◌^◌, ◌≤◌, ◌<◌, min, ◌≡◌, refl, arith, List, [], ◌∷◌, ◌++◌, Bool, true,
  false, not, ◌||◌, leb, ltb, if◌then◌else◌, length, All, replicate, Bool-cases, inl, inr,
}

abbrev pub mask32_ms : ℕ
mask32_ms = 0xffffffff

pub record RateLimit : Type 0 where
  pub window_ms : ℕ
  pub max_in_window : ℕ
  pub window_start_ms : ℕ
  pub count : ℕ
  pub suppressed : ℕ
  pub started : Bool

-- `(now_ms - window_start_ms) & 0xFFFFFFFF`, where the difference may be negative.
abbrev pub elapsed_ms : ℕ → ℕ → ℕ
elapsed_ms now start = (now + (2 ^ 32 - start % 2 ^ 32)) % 2 ^ 32

pub restart : RateLimit → ℕ → RateLimit
restart limit now =
    if not limit.started || leb limit.window_ms (elapsed_ms now limit.window_start_ms)
    then record limit { started = true; window_start_ms = now; count = 0 }
    else limit

pub admit : RateLimit → RateLimit × Bool
admit limit =
    if ltb limit.count limit.max_in_window
    then (record limit { count = limit.count + 1 }, true)
    else (record limit { suppressed = min (limit.suppressed + 1) mask32_ms }, false)

unfoldable pub allow : RateLimit → ℕ → RateLimit × Bool
unfolding restart admit
allow limit now_ms = admit (restart limit (now_ms % 2 ^ 32))

unfoldable pub take_suppressed : RateLimit → RateLimit × ℕ
take_suppressed limit = (record limit { suppressed = 0 }, limit.suppressed)

-- The answers to calls at these times.
unfoldable pub allow_all : RateLimit → List ℕ → RateLimit × List Bool
allow_all limit [] = (limit, [])
allow_all limit (now ∷ times) =
    let (limit, answer) = allow limit now in
    let (limit, answers) = allow_all limit times in (limit, answer ∷ answers)

-- A time at which the window of a limit is open.
abbrev pub IsOpen : RateLimit → ℕ → Type 0
IsOpen limit now = elapsed_ms (now % 2 ^ 32) limit.window_start_ms < limit.window_ms

restart-open :
    (limit : RateLimit) (now : ℕ)
    → limit.started ≡ true
    → IsOpen limit now
    → restart limit (now % 2 ^ 32) ≡ limit
unfolding restart
restart-open limit now s h =
    let open_ : (not limit.started
          || leb limit.window_ms (elapsed_ms (now % 2 ^ 32) limit.window_start_ms))
        ≡ false =
      ground arith in
    rw open_ refl

-- What is admitted of `n` calls, and what the window leaves to later ones.
abbrev pub admitted : RateLimit → ℕ → ℕ
admitted limit n = min n (limit.max_in_window - limit.count)

-- The calls at times at which a window is open: the first ones are admitted, as many as the window
-- has left, and the rest is refused; the counters say how many (the one of the refused calls stops at
-- its maximum), and the window itself stays.
pub allow_all-open :
    (limit : RateLimit) (times : List ℕ)
    → limit.started ≡ true
    → limit.count ≤ limit.max_in_window
    → limit.suppressed ≤ mask32_ms
    → All (IsOpen limit) times
    → allow_all limit times ≡ (
      record limit {
        count = limit.count + admitted limit (length times);
        suppressed =
            min (limit.suppressed + (length times - admitted limit (length times))) mask32_ms;
      },
      replicate (admitted limit (length times)) true
          ++ replicate (length times - admitted limit (length times)) false,
    )
unfolding allow_all allow admit
allow_all-open limit [] s c m h =
    let none_in : min 0 (limit.max_in_window - limit.count) ≡ 0 = omega arith in
    let same_count : limit.count + 0 ≡ limit.count = omega arith in
    let same : min (limit.suppressed + 0) mask32_ms ≡ limit.suppressed = omega arith in
    rw none_in (rw (same_count, same) refl)
allow_all-open limit (now ∷ times) s c m (here, h) =
    let n : ℕ = length times in
    rw (restart-open limit now s here) (elim (Bool-cases (ltb limit.count limit.max_in_window)) [
      | inl room ↦
          let limit' : RateLimit = record limit { count = limit.count + 1 } in
          let k : ℕ = admitted limit' n in
          let one : admitted limit (suc n) ≡ suc k = ground arith in
          let left : suc n - suc k ≡ n - k = omega arith in
          let sum : limit.count + suc k ≡ limit.count + 1 + k = omega arith in
          rw room
            (rw (allow_all-open limit' times s (ground arith) m h) (rw one (rw (left, sum) refl)))
      | inr full ↦
          let limit' : RateLimit = record limit {
            suppressed = min (limit.suppressed + 1) mask32_ms;
          } in
          let none_in : admitted limit (suc n) ≡ 0 = ground arith in
          let none_later : admitted limit' n ≡ 0 = ground arith in
          let counted : min (min (limit.suppressed + 1) mask32_ms + (n - 0)) mask32_ms
              ≡ min (limit.suppressed + (suc n - 0)) mask32_ms =
            omega arith in
          let refused : suc n - 0 ≡ suc (n - 0) = omega arith in
          rw full (
            rw (allow_all-open limit' times s c (omega arith) h)
              (rw (none_in, none_later) (rw counted (rw refused refl))))
    ])
