-- ===== src/Sim/Experiment/Rates.antt =====
-- transports/sim/node.py, `_apply_channel_overrides` and the bursts: the rates of the channels during a
-- run and after it.
use espstation.Common.{
  ℕ, ◌≡◌, refl, ap, ◌∙◌, arith, List, [], ◌∷◌, Option, none, some, Bool, true, false, if◌then◌else◌,
}
use espstation.Common.Dict.{Dict, Key, get}
use espstation.Sim.Experiment.{
  Channel, ChannelSpec, Spec, Node, reverted, overridden, modify, revert_all, override_all,
  overrides_for, apply_channel_overrides, start_run, finish_run,
}

abbrev pub on_some {ℓ} : {A : Type ℓ} → (A → A) → Option A → Option A
on_some f none = none
on_some f (some a) = some (f a)

-- A channel with its own rate and no override.
abbrev pub as_declared : Channel → Channel
as_declared ch = record ch { rate = ch.ndb_rate; enc_name = none; scale = none }

on_some-same : (o : Option Channel) → o ≡ on_some (λ ch. ch) o
on_some-same none = refl
on_some-same (some ch) = refl

on_some_compose :
    (f g : Channel → Channel) (o : Option Channel)
    → on_some g (on_some f o) ≡ on_some (λ ch. g (f ch)) o
on_some_compose f g none = refl
on_some_compose f g (some ch) = refl

on_some_if :
    (b : Bool) (f g : Channel → Channel) (o : Option Channel)
    → on_some g (if b then on_some f o else o) ≡ on_some (λ ch. g (if b then f ch else ch)) o
on_some_if true f g none = refl
on_some_if true f g (some ch) = refl
on_some_if false f g none = refl
on_some_if false f g (some ch) = refl

module _ {K : Type 0} ⦃key : Key K⦄ where
  -- What the specs of a run say of a channel: the rate, the encoding and the scale of the last one
  -- under its key.
  abbrev pub planned : List (ChannelSpec K) → K → Channel → Channel
  planned [] k ch = ch
  planned (s ∷ specs) k ch = planned specs k (
      if key.same s.key k
      then record ch { rate = s.rate; enc_name = s.enc; scale = s.scale }
      else ch)

  pub get-modify :
      (j k : K) (f : Channel → Channel) (d : Dict K Channel)
      → get j (modify k f d) ≡ (if key.same k j then on_some f (get j d) else get j d)
  unfolding get modify
  get-modify j k f [] = ground arith
  get-modify j k f ((i, ch) ∷ d) =
      ground (arith, key.same_iff k j, key.same_iff i k, key.same_iff i j, get-modify j k f d)

  get-revert_all : (k : K) (d : Dict K Channel) → get k (revert_all d) ≡ on_some reverted (get k d)
  unfolding get revert_all
  get-revert_all k [] = refl
  get-revert_all k ((j, ch) ∷ d) = ground (arith, get-revert_all k d)

  get-override_all :
      (specs : List (ChannelSpec K)) (k : K) (d : Dict K Channel)
      → get k (override_all specs d) ≡ on_some (planned specs k) (get k d)
  unfolding override_all
  get-override_all [] k d = on_some-same (get k d)
  get-override_all (s ∷ specs) k d =
      get-override_all specs k (modify s.key (overridden s) d)
      ∙ ap (on_some (planned specs k)) (get-modify k s.key (overridden s) d)
      ∙ on_some_if (key.same s.key k) (overridden s) (planned specs k) (get k d)

  -- When a run starts, each channel of the node has the rate, encoding and scale of the last entry of
  -- the spec for its key, and its own rate and no override where the spec has no entry for it; what an
  -- earlier run or a trigger had changed is forgotten, and no channel comes or goes.
  pub start_run-rates :
      (node : Node K) (now_us : ℕ) (spec : Spec K) (k : K)
      → node.spec ≡ some spec
      → get k (start_run node now_us).0.channels
        ≡ on_some (λ ch. planned spec.channels k (as_declared ch)) (get k node.channels)
  unfolding start_run apply_channel_overrides overrides_for
  start_run-rates node now_us spec k e =
      ap (λ (s : Option (Spec K)). get k (overrides_for s node.channels)) e
      ∙ get-override_all spec.channels k (revert_all node.channels)
      ∙ ap (on_some (planned spec.channels k)) (get-revert_all k node.channels)
      ∙ on_some_compose reverted (planned spec.channels k) (get k node.channels)

  -- When a run ends, by a command, a trigger or its duration, every channel has its own rate and no
  -- override again.
  pub finish_run-reverts :
      (node : Node K) (k : K)
      → get k (finish_run node).channels ≡ on_some as_declared (get k node.channels)
  unfolding finish_run apply_channel_overrides overrides_for
  finish_run-reverts node k = get-revert_all k node.channels
