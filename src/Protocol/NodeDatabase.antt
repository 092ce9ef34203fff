-- ===== src/Protocol/NodeDatabase.antt =====
-- gateway/espstation_gateway/protocol/ndb.py: the channels that a node declares, and the registry of
-- the nodes. `K` is the type of channel keys; floating-point numbers are a parameter: their type `F`
-- and what the code does with them.
pub mod Merging
pub mod Validation
use espstation.Common.{
  ℕ, ◌+◌, List, [], ◌∷◌, ◌++◌, Option, none, some, Bytes, Bool, true, false, ltb, not,
  if◌then◌else◌, Result, ok, err, ◌>>=◌, ◌==◌,
}
use espstation.Common.Dict.{Dict, Key, number_key, get, put, discard, has}
use espstation.Protocol.Messages.Fields.{ℤ, pos, negsuc}

-- The Python type that `_SEMANTIC_PYTYPE` gives a declared type.
pub data Semantic : Type 0 where
  integer floating boolean unlisted : Semantic

pub record NdbChannel (K : Type 0) : Type 0 where
  pub id : ℕ
  pub key : K
  pub type : Semantic

pub record Hello (K : Type 0) : Type 0 where
  pub node_id : ℕ
  pub label : Bytes
  pub ndb : List (NdbChannel K)

pub record ExperimentChannel (K F : Type 0) : Type 0 where
  pub key : K
  pub rate : F
  pub enc : Option ℕ
  pub scale : Option F

pub record NodeDatabase (K F : Type 0) : Type 0 where
  pub node_id : ℕ
  pub label : Bytes
  pub channels_by_id : Dict ℕ (NdbChannel K)
  pub channels_by_key : Dict K (NdbChannel K)
  pub active_scale : Dict ℕ F
  pub active_enc : Dict ℕ ℕ

pub data UnknownChannel (K : Type 0) : Type 0 where
  no_id : ℕ → UnknownChannel K
  no_key : K → UnknownChannel K
  no_node : ℕ → UnknownChannel K

-- A sample's value.
pub data Value (F : Type 0) : Type 0 where
  int_value : ℤ → Value F
  float_value : F → Value F
  bool_value : Bool → Value F

pub data SpecProblem (K F : Type 0) : Type 0 where
  not_in_ndb : K → SpecProblem K F
  rate_exceeded : F → F → SpecProblem K F

-- What Python's numbers do here: `is_integer` with `int`, `float`, `bool`, `raw * scale`,
-- `0.0`, the rounding sum, and `>`.
pub record Floats (F : Type 0) : Type 0 where
  pub whole : F → Option ℤ
  pub of_value : Value F → F
  pub truth : Value F → Bool
  pub times : Value F → F → Value F
  pub zero_ : F
  pub plus : F → F → F
  pub exceeds : F → F → Bool

whole_or_same : {F : Type 0} → Option ℤ → F → Value F
whole_or_same none x = float_value x
whole_or_same (some z) x = int_value z

unfoldable pub coerce : {F : Type 0} → Floats F → Value F → Semantic → Value F
unfolding whole_or_same
coerce floats value unlisted = value
coerce floats value boolean = bool_value (floats.truth value)
coerce floats value floating = float_value (floats.of_value value)
coerce floats (float_value x) integer = whole_or_same (floats.whole x) x
coerce floats (int_value z) integer = int_value z
coerce floats (bool_value b) integer = bool_value b

found : {K A : Type 0} → Option A → UnknownChannel K → Result (UnknownChannel K) A
found none e = err e
found (some a) e = ok a

set_scale : {F : Type 0} → Option F → ℕ → Dict ℕ F → Dict ℕ F
set_scale none id scales = discard id scales
set_scale (some scale) id scales = put id scale scales

set_enc : Option ℕ → ℕ → Dict ℕ ℕ → Dict ℕ ℕ
set_enc none id encs = encs
set_enc (some enc) id encs = put id enc encs

scaled : {F : Type 0} → Floats F → Option F → Value F → Value F
scaled floats none value = value
scaled floats (some scale) value = floats.times value scale

module _ {K F : Type 0} ⦃key : Key K⦄ where
  -- The loop of `merge_hello`.
  pub declare_all : List (NdbChannel K) → NodeDatabase K F → NodeDatabase K F
  declare_all [] db = db
  declare_all (ch ∷ ndb) db = declare_all ndb (record db {
    channels_by_id = put ch.id ch db.channels_by_id;
    channels_by_key = put ch.key ch db.channels_by_key;
  })

  unfoldable pub merge_hello : NodeDatabase K F → Hello K → NodeDatabase K F
  unfolding declare_all
  merge_hello db hello = declare_all hello.ndb (record db { label = hello.label })

  unfoldable pub from_hello : Hello K → NodeDatabase K F
  from_hello hello =
      merge_hello
        (record {
          node_id = hello.node_id;
          label = hello.label;
          channels_by_id = [];
          channels_by_key = [];
          active_scale = [];
          active_enc = [];
        })
        hello

  unfoldable pub by_id : NodeDatabase K F → ℕ → Result (UnknownChannel K) (NdbChannel K)
  unfolding found
  by_id db id = found (get id db.channels_by_id) (no_id id)

  unfoldable pub by_key : NodeDatabase K F → K → Result (UnknownChannel K) (NdbChannel K)
  unfolding found
  by_key db k = found (get k db.channels_by_key) (no_key k)

  unfoldable pub apply_experiment_channels :
      NodeDatabase K F → List (ExperimentChannel K F) → Result (UnknownChannel K) (NodeDatabase K F)
  unfolding set_scale set_enc
  apply_experiment_channels db [] = ok db
  apply_experiment_channels db (ch ∷ channels) = do
    ndb_ch ← by_key db ch.key
    apply_experiment_channels
        (record db {
          active_scale = set_scale ch.scale ndb_ch.id db.active_scale;
          active_enc = set_enc ch.enc ndb_ch.id db.active_enc;
        })
        channels

  unfoldable pub clear_active_channels : NodeDatabase K F → NodeDatabase K F
  clear_active_channels db = record db { active_scale = []; active_enc = [] }

  unfoldable pub convert :
      Floats F → NodeDatabase K F → ℕ → Value F → Result (UnknownChannel K) (Value F)
  unfolding scaled
  convert floats db id raw = do
    ndb_ch ← by_id db id
    ok (coerce floats (scaled floats (get id db.active_scale) raw) ndb_ch.type)

  -- The loop of `validate_spec`, with the total so far: its errors, and the total of the channels that
  -- are there.
  pub check_channels :
      Floats F → NodeDatabase K F → List (ExperimentChannel K F) → F → List (SpecProblem K F) × F
  check_channels floats db [] total = ([], total)
  check_channels floats db (ch ∷ channels) total =
      let known = has ch.key db.channels_by_key in
      let (problems, sum) =
        check_channels floats db channels (if known then floats.plus total ch.rate else total) in
      (if known then problems else not_in_ndb ch.key ∷ problems, sum)

  unfoldable pub validate_spec :
      Floats F → NodeDatabase K F → List (ExperimentChannel K F) → F → List (SpecProblem K F)
  unfolding check_channels
  validate_spec floats db channels rate_limit =
      let (problems, total) = check_channels floats db channels floats.zero_ in
      problems
      ++ (if floats.exceeds total rate_limit then rate_exceeded total rate_limit ∷ [] else [])

  merge_or_new : Option (NodeDatabase K F) → Hello K → NodeDatabase K F
  merge_or_new none hello = from_hello hello
  merge_or_new (some db) hello = merge_hello db hello

  -- `NodeRegistry`
  unfoldable pub on_hello : Dict ℕ (NodeDatabase K F) → Hello K → Dict ℕ (NodeDatabase K F)
  unfolding merge_or_new
  on_hello nodes hello = put hello.node_id (merge_or_new (get hello.node_id nodes) hello) nodes

  unfoldable pub require :
      Dict ℕ (NodeDatabase K F) → ℕ → Result (UnknownChannel K) (NodeDatabase K F)
  unfolding found
  require nodes node_id = found (get node_id nodes) (no_node node_id)
