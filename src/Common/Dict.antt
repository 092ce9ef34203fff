-- ===== src/Common/Dict.antt =====
-- A Python dict with its items in the order of insertion, over any type of keys with an equality.
use Prim.Native.Nat.{ℕ}
use mathlib.Core.Path.{◌≡◌, refl}
use mathlib.Core.Logic.{◌↔◌}
use mathlib.Core.Bool.{Bool, true, false}
use mathlib.Core.Option.{Option, none, some}
use mathlib.Core.List.{List, [], ◌∷◌}
use native.Mathlib.Omega.{arith}
use espstation.Common.Tests.{◌==◌, ==_iff, if◌then◌else◌}

pub record Key {ℓ} (K : Type ℓ) : Type ℓ where
  pub same : K → K → Bool
  pub same_iff : (a b : K) → (same a b ≡ true) ↔ (a ≡ b)

abbrev same_number : ℕ → ℕ → Bool
same_number a b = a == b

instance abbrev pub number_key : Key ℕ
number_key = record { same = same_number; same_iff = ==_iff }

abbrev pub Dict {ℓ κ} : Type ℓ → Type κ → Type (ℓ ⊔ κ)
Dict K V = List (K × V)

module _ {ℓ κ} {K : Type ℓ} {V : Type κ} ⦃key : Key K⦄ where
  unfoldable pub get : K → Dict K V → Option V
  get k [] = none
  get k ((j, v) ∷ d) = if key.same j k then some v else get k d

  unfoldable pub put : K → V → Dict K V → Dict K V
  put k v [] = (k, v) ∷ []
  put k v ((j, w) ∷ d) = if key.same j k then (k, v) ∷ d else (j, w) ∷ put k v d

  -- `d.pop(k, None)`
  unfoldable pub discard : K → Dict K V → Dict K V
  discard k [] = []
  discard k ((j, w) ∷ d) = if key.same j k then discard k d else (j, w) ∷ discard k d

  unfoldable pub has : K → Dict K V → Bool
  has k [] = false
  has k ((j, v) ∷ d) = if key.same j k then true else has k d

  pub get-put :
      (j k : K) (v : V) (d : Dict K V)
      → get j (put k v d) ≡ (if key.same k j then some v else get j d)
  unfolding get put
  get-put j k v [] = refl
  get-put j k v ((i, w) ∷ d) =
      ground (arith, key.same_iff k j, key.same_iff i k, key.same_iff i j, get-put j k v d)

  pub get-discard :
      (j k : K) (d : Dict K V) → get j (discard k d) ≡ (if key.same k j then none else get j d)
  unfolding get discard
  get-discard j k [] = ground arith
  get-discard j k ((i, w) ∷ d) =
      ground (arith, key.same_iff k j, key.same_iff i k, key.same_iff i j, get-discard j k d)

  pub has-put :
      (j k : K) (v : V) (d : Dict K V)
      → has j (put k v d) ≡ (if key.same k j then true else has j d)
  unfolding has put
  has-put j k v [] = refl
  has-put j k v ((i, w) ∷ d) =
      ground (arith, key.same_iff k j, key.same_iff i k, key.same_iff i j, has-put j k v d)
