-- ===== src/Sim/Experiment/Firing.antt =====
-- transports/sim/node.py, `_evaluate_triggers`: when a trigger fires.
use espstation.Common.{
  map, ℕ, ◌+◌, ◌-◌, ◌*◌, ◌≤◌, ◌<◌, ◌≡◌, refl, ap, ◌∙◌, arith, List, [], ◌∷◌, ◌++◌, none, some, true,
  false, ltb, ◌&&◌, ==_self,
}
use espstation.Common.Dict.{Dict, Key, get, put, discard, has, number_key, get-put}
use espstation.Protocol.Messages.Fields.{ℤ}
use espstation.Sim.Experiment.{Action, Channel, Trigger, Node, Output, fired}
use espstation.Sim.Experiment.Triggers.{
  compare_values, is_delta, evaluate_condition, held, measured, since_of, last_value_of,
  fire_trigger, do_actions, evaluate_trigger,
}

-- Times from a start on and before an end.
abbrev pub AllWithin : ℕ → ℕ → List ℕ → Type 0
AllWithin start end_ [] = Unit
AllWithin start end_ (t ∷ times) = (start ≤ t) × (t < end_) × AllWithin start end_ times

module _ {K : Type 0} ⦃key : Key K⦄ where
  -- The node when a trigger fires, before its actions.
  abbrev firing : Node K → ℕ → ℕ → Node K
  firing node idx start = record node {
    trigger_since = discard idx (put idx start node.trigger_since);
    trigger_fired = put idx tt node.trigger_fired;
  }

  held_round :
      (node : Node K) (idx : ℕ) (trig : Trigger K) (ch : Channel) (value : ℤ) (now_us : ℕ)
      → (trig.once && has idx node.trigger_fired) ≡ false
      → get trig.channel node.channels ≡ some ch
      → ch.last_value ≡ some value
      → is_delta trig.op ≡ false
      → compare_values trig.op value trig.value ≡ true
      → evaluate_trigger node idx trig now_us ≡ held node idx trig value now_us
  unfolding evaluate_trigger measured evaluate_condition last_value_of
  held_round node idx trig ch value now_us may there last plain holds =
      rw (may, there) (rw last (rw (plain, holds) refl))

  held_fires :
      (node : Node K) (idx : ℕ) (trig : Trigger K) (value : ℤ) (now_us start : ℕ)
      → since_of (get idx node.trigger_since) now_us ≡ start
      → ltb (now_us - start) (trig.for_ms * 1000) ≡ false
      → (later : List (Output K)) × ((held node idx trig value now_us).1
          ≡ fired idx node.run_id value ∷ later)
  unfolding held fire_trigger
  held_fires node idx trig value now_us start began due =
      ((do_actions (firing node idx start) trig.actions now_us).1, rw began (rw due refl))

  -- What stays true of a trigger while its condition holds and it waits: it may fire, and its channel
  -- has a value at which the condition holds.
  pub record IsHolding (node : Node K) (idx : ℕ) (trig : Trigger K) (value : ℤ) : Type 0 where
    pub may : (trig.once && has idx node.trigger_fired) ≡ false
    pub channel : Channel
    pub there : get trig.channel node.channels ≡ some channel
    pub last : channel.last_value ≡ some value
    pub plain : is_delta trig.op ≡ false
    pub holds : compare_values trig.op value trig.value ≡ true

  holding_round :
      (node : Node K) (idx : ℕ) (trig : Trigger K) (value : ℤ) (now_us : ℕ)
      → IsHolding node idx trig value
      → evaluate_trigger node idx trig now_us ≡ held node idx trig value now_us
  holding_round node idx trig value now_us h =
      held_round node idx trig h.channel value now_us h.may h.there h.last h.plain h.holds

  -- Rounds of one trigger, one after the other.
  unfoldable pub rounds : Node K → ℕ → Trigger K → List ℕ → Node K × List (Output K)
  rounds node idx trig [] = (node, [])
  rounds node idx trig (now_us ∷ times) =
      let (node, out) = evaluate_trigger node idx trig now_us in
      let (node, later) = rounds node idx trig times in (node, out ++ later)

  abbrev waiting : Node K → Dict ℕ ℕ → Node K
  waiting node since_ = record node { trigger_since = since_ }

  wait_round :
      (node : Node K) (idx : ℕ) (trig : Trigger K) (value : ℤ) (start now_us : ℕ)
      → IsHolding node idx trig value
      → since_of (get idx node.trigger_since) now_us ≡ start
      → start ≤ now_us
      → now_us < start + trig.for_ms * 1000
      → (evaluate_trigger node idx trig now_us
          ≡ (waiting node (put idx start node.trigger_since), []))
        × (get idx (put idx start node.trigger_since) ≡ some start)
  unfolding held
  wait_round node idx trig value start now_us h began from early =
      let short : ltb (now_us - start) (trig.for_ms * 1000) ≡ true = ground arith in
      (
        holding_round node idx trig value now_us h ∙ rw began (rw short refl),
        get-put idx idx start node.trigger_since ∙ rw (==_self idx) refl,
      )

  wait_rounds :
      (node : Node K) (idx : ℕ) (trig : Trigger K) (value : ℤ) (start : ℕ) (times : List ℕ)
      → IsHolding node idx trig value
      → get idx node.trigger_since ≡ some start
      → AllWithin start (start + trig.for_ms * 1000) times
      → (since_ : Dict ℕ ℕ) × (rounds node idx trig times ≡ (waiting node since_, []))
        × (get idx since_ ≡ some start)
  unfolding rounds since_of
  wait_rounds node idx trig value start [] h began early = (node.trigger_since, refl, began)
  wait_rounds node idx trig value start (t ∷ times) h began (from, now, early) =
      let began' : since_of (get idx node.trigger_since) t ≡ start = rw began refl in
      let (waits, kept) = wait_round node idx trig value start t h began' from now in
      let (since_, rest, kept') =
        wait_rounds (waiting node (put idx start node.trigger_since)) idx trig value start times
          (record {
            may = h.may;
            channel = h.channel;
            there = h.there;
            last = h.last;
            plain = h.plain;
            holds = h.holds;
          })
          kept early in
      (since_, rw waits (rw rest refl), kept')

  -- The debounce of a trigger with another operator than delta, where nothing but its rounds changes the
  -- node and its channel keeps the value at which the condition holds: from the round at `start`, before
  -- which the condition did not hold, it is silent in that round and in every other round before
  -- `for_ms` have passed; in the first round after that it fires.
  pub rounds-debounce :
      (node : Node K) (idx : ℕ) (trig : Trigger K) (value : ℤ) (start : ℕ) (times : List ℕ)
      (now_us : ℕ)
      → IsHolding node idx trig value
      → get idx node.trigger_since ≡ none
      → AllWithin start (start + trig.for_ms * 1000) (start ∷ times)
      → start + trig.for_ms * 1000 ≤ now_us
      → ((rounds node idx trig (start ∷ times)).1 ≡ [])
        × ((later : List (Output K)) × ((evaluate_trigger
                (rounds node idx trig (start ∷ times)).0
                idx
                trig
                now_us).1
              ≡ fired idx node.run_id value ∷ later))
  unfolding rounds since_of
  rounds-debounce node idx trig value start times now_us h first (from, now, early) late =
      let began : since_of (get idx node.trigger_since) start ≡ start = rw first refl in
      let (waits, kept) = wait_round node idx trig value start start h began from now in
      let begun : Node K = waiting node (put idx start node.trigger_since) in
      let (since_, rest, kept') =
        wait_rounds begun idx trig value start times
          (record {
            may = h.may;
            channel = h.channel;
            there = h.there;
            last = h.last;
            plain = h.plain;
            holds = h.holds;
          })
          kept early in
      let ready : Node K = waiting node since_ in
      let long : ltb (now_us - start) (trig.for_ms * 1000) ≡ false = ground arith in
      let all : rounds node idx trig (start ∷ times) ≡ (ready, []) = rw waits (rw rest refl) in
      let (later, fires) = held_fires ready idx trig value now_us start (rw kept' refl) long in
      (
        ap (λ (r : Node K × List (Output K)). r.1) all,
        (
          later,
          ap (λ (r : Node K × List (Output K)). (evaluate_trigger r.0 idx trig now_us).1) all
              ∙ ap (λ (r : Node K × List (Output K)). r.1)
                  (holding_round ready idx trig value now_us (record {
                    may = h.may;
                    channel = h.channel;
                    there = h.there;
                    last = h.last;
                    plain = h.plain;
                    holds = h.holds;
                  }))
              ∙ fires,
        ),
      )

  -- A round of a trigger without a time and without actions.
  fires_round :
      (node : Node K) (idx : ℕ) (trig : Trigger K) (value : ℤ) (now_us : ℕ)
      → IsHolding node idx trig value
      → trig.for_ms ≡ 0
      → trig.actions ≡ []
      → evaluate_trigger node idx trig now_us ≡ (
        firing node idx (since_of (get idx node.trigger_since) now_us),
        fired idx node.run_id value ∷ [],
      )
  unfolding held fire_trigger do_actions
  fires_round node idx trig value now_us h at_once empty =
      let start : ℕ = since_of (get idx node.trigger_since) now_us in
      let due : ltb (now_us - start) (trig.for_ms * 1000) ≡ false = ground arith in
      let still : do_actions (firing node idx start) trig.actions now_us
          ≡ (firing node idx start, []) =
        ap (λ (actions : List (Action K)). do_actions (firing node idx start) actions now_us)
          empty in
      holding_round node idx trig value now_us h
      ∙ rw due
          (ap (λ (r : Node K × List (Output K)). (r.0, fired idx node.run_id value ∷ r.1)) still)

  -- A trigger fires again while its condition stays true. It is one without `once`, without a time and
  -- without actions, and with another operator than delta; the condition holds at the channel's last
  -- value, which does not change. Then it fires in every round, whenever these are: the condition need
  -- not become false in between.
  pub rounds-fires :
      (node : Node K) (idx : ℕ) (trig : Trigger K) (value : ℤ) (times : List ℕ)
      → IsHolding node idx trig value
      → trig.once ≡ false
      → trig.for_ms ≡ 0
      → trig.actions ≡ []
      → (rounds node idx trig times).1 ≡ map (λ t. fired idx node.run_id value) times
  unfolding rounds
  rounds-fires node idx trig value [] h again at_once empty = refl
  rounds-fires node idx trig value (now_us ∷ times) h again at_once empty =
      let next : Node K = firing node idx (since_of (get idx node.trigger_since) now_us) in
      let later =
        rounds-fires next idx trig value times
          (record {
            may = rw again refl;
            channel = h.channel;
            there = h.there;
            last = h.last;
            plain = h.plain;
            holds = h.holds;
          })
          again at_once empty in
      rw (fires_round node idx trig value now_us h at_once empty)
        (ap (◌∷◌ (fired idx node.run_id value)) later)
