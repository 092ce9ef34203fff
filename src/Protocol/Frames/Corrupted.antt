-- ===== src/Protocol/Frames/Corrupted.antt =====
-- frames.py: a body that parsed and in which one byte was changed.
use espstation.Common.{
  ℕ, ◌+◌, ◌*◌, ◌≤◌, ◌≡◌, ◌≢◌, ◌⊎◌, inl, inr, refl, sym, ap, subst, ◌∙◌, arith, [], ◌∷◌, ◌++◌,
  append_assoc, Bytes, IsByte, length, All, All-append_left, All-append_right, Result, ok, err,
  stuck, Bool-cases, ltb,
}
use espstation.Protocol.Crc16.{init, crc16_ccitt_false}
use espstation.Protocol.Crc16.Detects.{crc16_ccitt_false_detects}
use espstation.Protocol.Frames.{Frame, FrameError, parse}
use espstation.Protocol.Frames.Parts.{
  head_bytes, length-body, checked, parse-checked, parts, last_two, parse-short,
}
use espstation.Protocol.Frames.Parse.{checked-ok, parse-ok}

checked-ne-stuck :
    (r : Result FrameError Frame)
    → r ≢ stuck
    → ((f : Frame) × (r ≡ ok f)) ⊎ ((e : FrameError) × (r ≡ err e))
checked-ne-stuck (ok f) h = inl (f, refl)
checked-ne-stuck (err e) h = inr (e, refl)
checked-ne-stuck stuck h = absurd (h refl)

-- `parse` returns a frame or raises: it is never stuck.
pub parse_cases :
    (body : Bytes) → ((f : Frame) × (parse body ≡ ok f)) ⊎ ((e : FrameError) × (parse body ≡ err e))
parse_cases body = checked-ne-stuck (parse body) total
  where
    total : parse body ≢ stuck
    total e = elim (Bool-cases (ltb (length body) 10)) [
      | inl short ↦ cc (parse-short body (ground arith))
      | inr long ↦
          let p = parts body (ground arith) in
          let c : checked p.head p.middle p.c0 p.c1 ≡ stuck =
            sym (parse-checked p.head p.middle p.c0 p.c1) ∙ ap parse (sym p.splits) ∙ e in
          ground arith
    ]

last_two_inj :
    (xs ys : Bytes) (a b c d : ℕ)
    → xs ++ a ∷ b ∷ [] ≡ ys ++ c ∷ d ∷ []
    → (xs ≡ ys) × (a ≡ c) × (b ≡ d)
last_two_inj [] [] a b c d h = (refl, cc, cc)
last_two_inj [] (y ∷ []) a b c d h = cc
last_two_inj [] (y ∷ z ∷ []) a b c d h = cc
last_two_inj [] (y ∷ z ∷ w ∷ ys) a b c d h = cc
last_two_inj (x ∷ []) [] a b c d h = cc
last_two_inj (x ∷ z ∷ []) [] a b c d h = cc
last_two_inj (x ∷ z ∷ w ∷ xs) [] a b c d h = cc
last_two_inj (x ∷ xs) (y ∷ ys) a b c d h =
    let (p, q, r) = last_two_inj xs ys a b c d (cc) in (cc, q, r)

-- The checksum of a body that parsed covers all but its last two bytes.
parse-crc :
    (k : Bytes) (a b : ℕ) {f : Frame}
    → parse (k ++ a ∷ b ∷ []) ≡ ok f
    → a + 256 * b ≡ crc16_ccitt_false k init
parse-crc k a b e =
    let (p, c) = parse-ok (k ++ a ∷ b ∷ []) e in
    let (_, _, crc, _) = checked-ok p.head p.middle p.c0 p.c1 c in
    let (same, ea, eb) =
      last_two_inj k (head_bytes p.head ++ p.middle) a b p.c0 p.c1
        (p.splits ∙ sym (append_assoc (head_bytes p.head) p.middle (p.c0 ∷ p.c1 ∷ []))) in
    omega (arith, crc, ap (λ l. crc16_ccitt_false l init) same)

parse-ok_length : (body : Bytes) {f : Frame} → parse body ≡ ok f → 10 ≤ length body
parse-ok_length body e =
    let (p, _) = parse-ok body e in
    omega (arith, ap (length {0}) p.splits, length-body p.head p.middle p.c0 p.c1)

last_one : (x : ℕ) (xs : Bytes) → (k : Bytes) × (a : ℕ) × (x ∷ xs ≡ k ++ a ∷ [])
last_one x [] = ([], x, refl)
last_one x (y ∷ ys) = let (k, a, e) = last_one y ys in (x ∷ k, a, ap (◌∷◌ x) e)

-- Two bodies with one byte apart do not both parse.
not_both :
    (front back : Bytes) (x y : ℕ) {f g : Frame}
    → All IsByte (front ++ x ∷ back)
    → IsByte y
    → x ≢ y
    → parse (front ++ x ∷ back) ≡ ok f
    → parse (front ++ y ∷ back) ≢ ok g
not_both [] [] x y b hy ne e d = absurd (omega (arith, parse-ok_length (x ∷ []) e))
not_both (z ∷ front) [] x y b hy ne e d =
    let (k, a, split) = last_one z front in
    let regroup : (v : ℕ) → z ∷ front ++ v ∷ [] ≡ k ++ a ∷ v ∷ [] =
      λ v. ap (λ r. r ++ v ∷ []) split ∙ append_assoc k (a ∷ []) (v ∷ []) in
    ne (
      omega (
        arith,
        parse-crc k a x (ap parse (sym (regroup x)) ∙ e),
        parse-crc k a y (ap parse (sym (regroup y)) ∙ d),
      ))
not_both front (z ∷ []) x y b hy ne e d =
    ne (omega (arith, parse-crc front x z e, parse-crc front y z d))
not_both front (z ∷ w ∷ back) x y b hy ne e d =
    let (k, c0, c1, split) = last_two (z ∷ w ∷ back) (omega arith) in
    let regroup : (v : ℕ) → front ++ v ∷ z ∷ w ∷ back ≡ (front ++ v ∷ k) ++ c0 ∷ c1 ∷ [] =
      λ v. ap (λ r. front ++ v ∷ r) split ∙ sym (append_assoc front (v ∷ k) (c0 ∷ c1 ∷ [])) in
    let bytes : All IsByte (front ++ x ∷ k) =
      All-append_left IsByte (front ++ x ∷ k) (c0 ∷ c1 ∷ []) (subst (All IsByte) (regroup x) b) in
    let behind : All IsByte (x ∷ k) = All-append_right IsByte front (x ∷ k) bytes in
    crc16_ccitt_false_detects front k x y init (All-append_left IsByte front (x ∷ k) bytes) behind.1
      behind.0 hy (omega arith) ne
      (sym (parse-crc (front ++ x ∷ k) c0 c1 (ap parse (sym (regroup x)) ∙ e))
        ∙ parse-crc (front ++ y ∷ k) c0 c1 (ap parse (sym (regroup y)) ∙ d))

-- When a body of bytes parses and one of its bytes, at any place, is replaced by another byte, then
-- parsing raises an error.
pub parse_corrupted :
    (front back : Bytes) (x y : ℕ) (f : Frame)
    → All IsByte (front ++ x ∷ back)
    → IsByte y
    → x ≢ y
    → parse (front ++ x ∷ back) ≡ ok f
    → (e : FrameError) × (parse (front ++ y ∷ back) ≡ err e)
parse_corrupted front back x y f b hy ne e = elim (parse_cases (front ++ y ∷ back)) [
  | inl (g, d) ↦ absurd (not_both front back x y b hy ne e d)
  | inr raised ↦ raised
]
