-- ===== src/Protocol/Cobs/Delivered.antt =====
-- What cobs.py's decoder gives back of the data that its encoder was given, in terms of the data
-- alone: a zero that directly follows a full block of 254 other bytes is lost.
use espstation.Common.{
  ℕ, suc, ◌+◌, ◌≤◌, ◌<◌, ◌≡◌, ◌≢◌, ◌↔◌, refl, sym, ap, ◌∙◌, arith, [], ◌∷◌, ◌++◌, false, ◌&&◌, ◌==◌,
  if◌then◌else◌, Bytes, length, All, append-nil,
}

abbrev pub IsNonZero : ℕ → Type 0
IsNonZero b = b ≢ 0

-- The length of the open block after one more byte, `k` being its length before.
abbrev next_run : ℕ → ℕ → ℕ
next_run k x = if x == 0 then 0 else if k == 254 then 1 else suc k

pub delivered : ℕ → Bytes → Bytes
delivered k [] = []
delivered k (x ∷ xs) =
    let rest = delivered (next_run k x) xs in if x == 0 && k == 254 then rest else x ∷ rest

-- How many zeros come directly behind a full block.
pub lost_zeros : ℕ → Bytes → ℕ
lost_zeros k [] = 0
lost_zeros k (x ∷ xs) =
    let rest = lost_zeros (next_run k x) xs in if x == 0 && k == 254 then suc rest else rest

pub length-delivered : (k : ℕ) (xs : Bytes) → length (delivered k xs) + lost_zeros k xs ≡ length xs
unfolding delivered lost_zeros
length-delivered k [] = omega arith
length-delivered k (x ∷ xs) = ground (arith, length-delivered (next_run k x) xs)

delivered_all : (k : ℕ) (xs : Bytes) → lost_zeros k xs ≡ 0 → delivered k xs ≡ xs
unfolding delivered lost_zeros
delivered_all k [] h = refl
delivered_all k (x ∷ xs) h = ground (arith, delivered_all (next_run k x) xs)

-- The data comes back whole exactly when no zero is lost.
pub delivered_iff : (xs : Bytes) → (delivered 0 xs ≡ xs) ↔ (lost_zeros 0 xs ≡ 0)
delivered_iff xs = (λ e. omega (arith, ap length e, length-delivered 0 xs), delivered_all 0 xs)

lost_zeros_short : (k : ℕ) (xs : Bytes) → k + length xs < 255 → lost_zeros k xs ≡ 0
unfolding lost_zeros
lost_zeros_short k [] h = refl
lost_zeros_short k (x ∷ xs) h = ground (arith, lost_zeros_short (next_run k x) xs)

pub lost_zeros-short : (xs : Bytes) → length xs ≤ 254 → lost_zeros 0 xs ≡ 0
lost_zeros-short xs h = lost_zeros_short 0 xs (omega arith)

-- A block of other bytes is delivered, and its length is added to the open block's.
pub delivered-append :
    (k : ℕ) (run rest : Bytes)
    → All IsNonZero run
    → k + length run ≤ 254
    → delivered k (run ++ rest) ≡ run ++ delivered (k + length run) rest
unfolding delivered
delivered-append k [] rest h fits = let e : k + 0 ≡ k = omega arith in rw e
delivered-append k (x ∷ run) rest (nz, h) fits =
    let e : suc k + length run ≡ k + suc (length run) = omega arith in
    ground (arith, delivered-append (suc k) run rest h)

-- A full block may as well be closed in front of a byte that is not a zero.
pub delivered-full : (x : ℕ) (xs : Bytes) → x ≢ 0 → delivered 254 (x ∷ xs) ≡ delivered 0 (x ∷ xs)
unfolding delivered
delivered-full x xs h = ground arith

pub delivered-zero :
    (n : ℕ) (xs : Bytes)
    → delivered n (0 ∷ xs) ≡ (if n == 254 then delivered 0 xs else 0 ∷ delivered 0 xs)
unfolding delivered
delivered-zero n xs = ground arith

pub delivered-nil : (k : ℕ) → delivered k [] ≡ []
unfolding delivered
delivered-nil k = refl

-- A last block comes back whole.
pub delivered_block : (run : Bytes) → All IsNonZero run → length run ≤ 254 → delivered 0 run ≡ run
delivered_block run h fits =
    ap (delivered 0) (sym (append-nil run))
    ∙ delivered-append 0 run [] h (omega arith)
    ∙ rw (delivered-nil, append-nil)

-- Nothing is lost before the open block is full.
pub delivered-front :
    (k : ℕ) (xs rest : Bytes)
    → k + length xs ≤ 254
    → (j : ℕ) × (delivered k (xs ++ rest) ≡ xs ++ delivered j rest)
unfolding delivered
delivered-front k [] rest h = (k, refl)
delivered-front k (x ∷ xs) rest h =
    let (j, e) = delivered-front (next_run k x) xs rest (ground arith) in
    let kept : (x == 0 && k == 254) ≡ false = ground arith in (j, rw kept (ap (◌∷◌ x) e))

-- A zero behind a full block is lost.
pub lost_zeros-full :
    (k : ℕ) (run rest : Bytes)
    → All IsNonZero run
    → k + length run ≡ 254
    → 0 < lost_zeros k (run ++ 0 ∷ rest)
unfolding lost_zeros
lost_zeros-full k [] rest h e = ground arith
lost_zeros-full k (x ∷ run) rest (nz, h) e = ground (arith, lost_zeros-full (suc k) run rest h)
