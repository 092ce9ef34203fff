-- ===== src/Runtime/NodeIds.antt =====
-- runtime.py, `_morse_node_id`: the node id of a Morse adapter. `x & 0xFF` is `x % 0x100`, and `0x4D00 |
-- x` of a byte is `0x4D00 + x`.
use espstation.Common.{
  ℕ, zero, suc, ◌+◌, ◌-◌, ◌%◌, ◌≤◌, ◌<◌, ◌≡◌, inl, inr, ap, sym, arith, List, [], ◌∷◌, Option, none,
  some, Bytes, Bool, true, false, ◌||◌, ◌==◌, Bool-cases, Option-cases, if◌then◌else◌,
}

abbrev pub is_taken : List ℕ → ℕ → Bool
is_taken [] n = false
is_taken (t ∷ taken) n = t == n || is_taken taken n

abbrev sum : Bytes → ℕ
sum [] = 0
sum (b ∷ source) = b + sum source

abbrev pub adapter_id : ℕ → ℕ
adapter_id low = 0x4d00 + low % 0x100

-- The loop over 256 candidates, from this one on; `none` where all are taken.
pub next_free : ℕ → ℕ → List ℕ → Option ℕ
next_free zero low taken = none
next_free (suc k) low taken =
    let rest = next_free k (low + 1) taken in
    if is_taken taken (adapter_id low) then rest else some (adapter_id low)

or_else : Option ℕ → ℕ → ℕ
or_else none base = base
or_else (some n) base = n

unfoldable pub morse_node_id : Bytes → List ℕ → ℕ
unfolding next_free or_else
morse_node_id source taken = or_else (next_free 256 (sum source) taken) (adapter_id (sum source))

-- A search that ends in nothing has seen every candidate taken.
next_free-none :
    (k low : ℕ) (taken : List ℕ) (j : ℕ)
    → next_free k low taken ≡ none
    → j < k
    → is_taken taken (adapter_id (low + j)) ≡ true
unfolding next_free
next_free-none zero low taken j e h = absurd (omega arith)
next_free-none (suc k) low taken zero e h = elim (Bool-cases (is_taken taken (adapter_id low))) [
  | inl here ↦ let same : low + 0 ≡ low = omega arith in rw same here
  | inr free ↦ absurd (cc (rw free at e))
]
next_free-none (suc k) low taken (suc j) e h = elim (Bool-cases (is_taken taken (adapter_id low))) [
  | inl here ↦
      let same : low + 1 + j ≡ low + suc j = omega arith in
      rw (sym same) (next_free-none k (low + 1) taken j (rw here at e) (omega arith))
  | inr free ↦ absurd (cc (rw free at e))
]

some_inj : (a b : ℕ) → ◌≡◌ {A = Option ℕ} (some a) (some b) → a ≡ b
some_inj a b e = cc

next_free-some :
    (k low : ℕ) (taken : List ℕ) (n : ℕ)
    → next_free k low taken ≡ some n
    → (is_taken taken n ≡ false) × (0x4d00 ≤ n) × (n < 0x4e00)
unfolding next_free
next_free-some zero low taken n e = absurd (cc)
next_free-some (suc k) low taken n e = elim (Bool-cases (is_taken taken (adapter_id low))) [
  | inl here ↦ next_free-some k (low + 1) taken n (rw here at e)
  | inr free ↦
      let same : adapter_id low ≡ n = some_inj (adapter_id low) n (rw free at e) in
      (rw (sym same) free, omega (arith, same), omega (arith, same))
]

-- One search, over a given list of ids that are taken: if any of the 256 ids of adapters is free, the id
-- that the search finds is one of the 256 and is not on the list.
pub morse_node_id-free :
    (source : Bytes) (taken : List ℕ) (low : ℕ)
    → low < 0x100
    → is_taken taken (0x4d00 + low) ≡ false
    → (is_taken taken (morse_node_id source taken) ≡ false)
      × (0x4d00 ≤ morse_node_id source taken)
      × (morse_node_id source taken < 0x4e00)
unfolding morse_node_id or_else
morse_node_id-free source taken low small free =
    elim (Option-cases (next_free 256 (sum source) taken)) [
      | inl all ↦
          let start : ℕ = sum source in
          let j : ℕ = (low + (0x100 - start % 0x100)) % 0x100 in
          let reached : adapter_id (start + j) ≡ 0x4d00 + low = omega arith in
          absurd (
            cc (
              free,
              ap (is_taken taken) reached,
              next_free-none 256 start taken j all (omega arith),
            ))
      | inr (n, here) ↦ rw here (next_free-some 256 (sum source) taken n here)
    ]
