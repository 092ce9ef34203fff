-- ===== src/Protocol/NodeDatabase/Validation.antt =====
-- ndb.py, `validate_spec`: the station's check of a spec, and what it promises.
use espstation.Common.{
  Bool, ◌≡◌, ◌↔◌, refl, List, [], ◌∷◌, ◌++◌, some, true, false, Bool-cases, inl, inr, if◌then◌else◌,
  ok, All,
}
use espstation.Common.Dict.{Dict, Key, get, has}
use espstation.Protocol.NodeDatabase.{
  Floats, NdbChannel, ExperimentChannel, NodeDatabase, SpecProblem, rate_exceeded, by_key,
  set_scale, set_enc, apply_experiment_channels, check_channels, validate_spec,
}

append-none : {A : Type 0} (xs ys : List A) → xs ++ ys ≡ [] → (xs ≡ []) × (ys ≡ [])
append-none [] ys e = (refl, e)
append-none (x ∷ xs) ys e = absurd (cc)

rate_none :
    {K F : Type 0} (over : Bool) (total limit : F)
    → ◌≡◌ {A = List (SpecProblem K F)} (if over then rate_exceeded total limit ∷ [] else []) []
    → over ≡ false
rate_none true total limit e = cc
rate_none false total limit e = refl

get-has :
    {K : Type 0} ⦃key : Key K⦄ (k : K) (d : Dict K (NdbChannel K))
    → has k d ≡ true
    → (ch : NdbChannel K) × (get k d ≡ some ch)
unfolding get has
get-has k [] e = absurd (cc)
get-has ⦃key = key⦄ k ((j, ch) ∷ d) e = elim (Bool-cases (key.same j k)) [
  | inl same ↦ (ch, rw same refl)
  | inr other ↦ let (ch', there) = get-has k d (rw other at e) in (ch', rw other there)
]

module _ {K F : Type 0} ⦃key : Key K⦄ where
  -- The rates, added one after the other, each sum rounded.
  abbrev pub total_rate : Floats F → F → List (ExperimentChannel K F) → F
  total_rate floats total [] = total
  total_rate floats total (ch ∷ channels) = total_rate floats (floats.plus total ch.rate) channels

  abbrev pub AllKnown : NodeDatabase K F → List (ExperimentChannel K F) → Type 0
  AllKnown db channels = All (λ ch. has ch.key db.channels_by_key ≡ true) channels

  check_channels-known :
      (floats : Floats F) (db : NodeDatabase K F) (channels : List (ExperimentChannel K F))
      (total : F)
      → AllKnown db channels
      → check_channels floats db channels total ≡ ([], total_rate floats total channels)
  unfolding check_channels
  check_channels-known floats db [] total h = refl
  check_channels-known floats db (ch ∷ channels) total (here, h) =
      rw here (check_channels-known floats db channels (floats.plus total ch.rate) h)

  check_channels-none :
      (floats : Floats F) (db : NodeDatabase K F) (channels : List (ExperimentChannel K F))
      (total : F)
      → (check_channels floats db channels total).0 ≡ []
      → AllKnown db channels
  unfolding check_channels
  check_channels-none floats db [] total e = tt
  check_channels-none floats db (ch ∷ channels) total e =
      elim (Bool-cases (has ch.key db.channels_by_key)) [
        | inl here ↦ (
          here,
          check_channels-none floats db channels (floats.plus total ch.rate) (rw here at e),
        )
        | inr missing ↦ absurd (cc (rw missing at e))
      ]

  -- The station's check finds nothing exactly if every channel of the spec is in the node's database and
  -- the sum of their rates, added from 0 in the order of the spec and rounded as floating-point numbers
  -- are at each step, does not exceed the node's budget.
  pub validate_spec-none :
      (floats : Floats F) (db : NodeDatabase K F) (channels : List (ExperimentChannel K F))
      (limit : F)
      → (validate_spec floats db channels limit ≡ []) ↔ (
          AllKnown db channels
          × (floats.exceeds (total_rate floats floats.zero_ channels) limit ≡ false))
  unfolding validate_spec
  validate_spec-none floats db channels limit = (
    λ e.
        (let (clean, within) = append-none (check_channels floats db channels floats.zero_).0 _ e in
          let known = check_channels-none floats db channels floats.zero_ clean in
          let within' = rw (check_channels-known floats db channels floats.zero_ known) at within in
          (known, rate_none _ (total_rate floats floats.zero_ channels) limit within')),
    λ (known, within).
        rw (check_channels-known floats db channels floats.zero_ known) (rw within refl),
  )

  -- A spec whose channels are all known can be installed: no channel is reported as unknown, and only
  -- the scales and encodings of the database change.
  pub apply_experiment_channels-known :
      (db : NodeDatabase K F) (channels : List (ExperimentChannel K F))
      → AllKnown db channels
      → (db' : NodeDatabase K F) × (apply_experiment_channels db channels ≡ ok db')
        × (db'.channels_by_id ≡ db.channels_by_id)
        × (db'.channels_by_key ≡ db.channels_by_key)
  unfolding apply_experiment_channels by_key
  apply_experiment_channels-known db [] h = (db, refl, refl, refl)
  apply_experiment_channels-known db (ch ∷ channels) (here, h) =
      let (ndb_ch, there) = get-has ch.key db.channels_by_key here in
      let next : NodeDatabase K F = record db {
        active_scale = set_scale ch.scale ndb_ch.id db.active_scale;
        active_enc = set_enc ch.enc ndb_ch.id db.active_enc;
      } in
      let (db', done, ids, keys) = apply_experiment_channels-known next channels h in
      (db', rw there done, ids, keys)
