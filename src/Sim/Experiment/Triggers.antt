-- ===== src/Sim/Experiment/Triggers.antt =====
-- transports/sim/node.py, the triggers of a run, the end of bursts, and the part of the master tick
-- that drives a run.
use espstation.Common.{
  ℕ, ◌+◌, ◌-◌, ◌*◌, List, [], ◌∷◌, ◌++◌, Option, none, some, Bool, true, false, not, ◌&&◌, ◌==◌,
  ltb, leb, if◌then◌else◌,
}
use espstation.Common.Dict.{Dict, Key, get, put, discard, has, number_key}
use espstation.Protocol.Messages.Fields.{ℤ, pos, negsuc}
use espstation.Sim.Experiment.{
  Channel, Op, gt, ge, lt, le, eq, ne, delta, Action, set_state, set_rate, burst, stop, mark,
  reboot, set_gpio, Trigger, Spec, StartMode, manual, on_boot, at_ms, on_trigger, RunState, idle,
  armed, running, done, Node, trigger_stop, Output, exp_done, exp_mark, fired, gpio_call, uptime_ms,
  state_message, modify, start_run, finish_run, do_reboot,
}

-- The order, the equality and the distance of whole numbers with a sign.
unfoldable pub less : ℤ → ℤ → Bool
less (pos a) (pos b) = ltb a b
less (pos a) (negsuc b) = false
less (negsuc a) (pos b) = true
less (negsuc a) (negsuc b) = ltb b a

unfoldable pub same_value : ℤ → ℤ → Bool
same_value (pos a) (pos b) = a == b
same_value (negsuc a) (negsuc b) = a == b
same_value (pos a) (negsuc b) = false
same_value (negsuc a) (pos b) = false

unfoldable pub distance : ℤ → ℤ → ℤ
distance (pos a) (pos b) = pos (if ltb a b then b - a else a - b)
distance (negsuc a) (negsuc b) = pos (if ltb a b then b - a else a - b)
distance (pos a) (negsuc b) = pos (a + b + 1)
distance (negsuc a) (pos b) = pos (a + b + 1)

unfoldable pub compare_values : Op → ℤ → ℤ → Bool
unfolding less same_value
compare_values gt a b = less b a
compare_values ge a b = not (less a b)
compare_values lt a b = less a b
compare_values le a b = not (less b a)
compare_values eq a b = same_value a b
compare_values ne a b = not (same_value a b)
compare_values delta a b = false

unfoldable pub jumped : Option ℤ → ℤ → ℤ → Bool
jumped none value threshold = false
jumped (some prev) value threshold = less threshold (distance value prev)

unfoldable pub is_delta : Op → Bool
is_delta delta = true
is_delta gt = false
is_delta ge = false
is_delta lt = false
is_delta le = false
is_delta eq = false
is_delta ne = false

-- `ms or 1000`
unfoldable pub burst_ms : Option ℕ → ℕ
burst_ms none = 1000
burst_ms (some ms) = if ms == 0 then 1000 else ms

-- `_trigger_since.setdefault(idx, now)`
unfoldable pub since_of : Option ℕ → ℕ → ℕ
since_of none now_us = now_us
since_of (some since) now_us = since

unfoldable pub last_value_of : Option Channel → Option ℤ
last_value_of none = none
last_value_of (some ch) = ch.last_value

unfoldable pub at_or_zero : Option ℕ → ℕ
at_or_zero none = 0
at_or_zero (some ms) = ms

module _ {K : Type 0} ⦃key : Key K⦄ where
  -- The channel of a burst is there, and the burst has a rate.
  unfoldable pub begin_burst : Option Channel → Node K → K → Option ℕ → Option ℕ → ℕ → Node K
  begin_burst none node k rate ms now_us = node
  begin_burst (some ch) node k none ms now_us = node
  begin_burst (some ch) node k (some rate) ms now_us = record node {
    burst_saved =
        if has k node.burst_saved then node.burst_saved else put k ch.rate node.burst_saved;
    channels = modify k (λ (c : Channel). record c { rate = rate }) node.channels;
    burst_until = put k (now_us + burst_ms ms * 1000) node.burst_until;
  }

  unfoldable pub do_action : Node K → Action K → ℕ → Node K × List (Output K)
  unfolding begin_burst burst_ms
  do_action node (set_state none) now_us = (node, [])
  do_action node (set_state (some code)) now_us = (record node { state = code }, [])
  do_action node (set_rate k none) now_us = (node, [])
  do_action node (set_rate k (some rate)) now_us = (
    record node { channels = modify k (λ (c : Channel). record c { rate = rate }) node.channels },
    [],
  )
  do_action node (burst k rate ms) now_us =
      (begin_burst (get k node.channels) node k rate ms now_us, [])
  do_action node stop now_us =
      (finish_run node, state_message (finish_run node) (some trigger_stop) ∷ [])
  do_action node (mark label) now_us = (node, exp_mark node.run_id label ∷ [])
  do_action node reboot now_us = do_reboot node now_us
  do_action node (set_gpio pin level) now_us = (node, gpio_call pin level ∷ [])

  unfoldable pub do_actions : Node K → List (Action K) → ℕ → Node K × List (Output K)
  do_actions node [] now_us = (node, [])
  do_actions node (a ∷ actions) now_us =
      let (node, out) = do_action node a now_us in
      let (node, later) = do_actions node actions now_us in (node, out ++ later)

  unfoldable pub fire_trigger : Node K → ℕ → Trigger K → ℤ → ℕ → Node K × List (Output K)
  fire_trigger node idx trig value now_us =
      let (node', out) = do_actions node trig.actions now_us in
      (node', fired idx node.run_id value ∷ out)

  unfoldable pub evaluate_condition : Node K → ℕ → ℤ → Op → ℤ → Node K × Bool
  unfolding jumped is_delta compare_values distance
  evaluate_condition node idx value op threshold =
      if is_delta op
      then (
        record node { trigger_prev = put idx value node.trigger_prev },
        jumped (get idx node.trigger_prev) value threshold,
      )
      else (node, compare_values op value threshold)

  -- The end of one round of the loop: the condition holds.
  unfoldable pub held : Node K → ℕ → Trigger K → ℤ → ℕ → Node K × List (Output K)
  held node idx trig value now_us =
      let since = since_of (get idx node.trigger_since) now_us in
      if ltb (now_us - since) (trig.for_ms * 1000)
      then (record node { trigger_since = put idx since node.trigger_since }, [])
      else fire_trigger
          (record node {
            trigger_since = discard idx (put idx since node.trigger_since);
            trigger_fired = put idx tt node.trigger_fired;
          })
          idx trig value now_us

  unfoldable pub measured : Option ℤ → Node K → ℕ → Trigger K → ℕ → Node K × List (Output K)
  measured none node idx trig now_us = (node, [])
  measured (some value) node idx trig now_us =
      let (node, condition) = evaluate_condition node idx value trig.op trig.value in
      if condition
      then held node idx trig value now_us
      else (record node { trigger_since = discard idx node.trigger_since }, [])

  -- One round of the loop of `_evaluate_triggers`.
  unfoldable pub evaluate_trigger : Node K → ℕ → Trigger K → ℕ → Node K × List (Output K)
  unfolding measured held since_of last_value_of
  evaluate_trigger node idx trig now_us =
      if trig.once && has idx node.trigger_fired
      then (node, [])
      else measured (last_value_of (get trig.channel node.channels)) node idx trig now_us

  unfoldable pub evaluate_triggers : Node K → ℕ → List (Trigger K) → ℕ → Node K × List (Output K)
  evaluate_triggers node idx [] now_us = (node, [])
  evaluate_triggers node idx (trig ∷ triggers) now_us =
      let (node, out) = evaluate_trigger node idx trig now_us in
      let (node, later) = evaluate_triggers node (idx + 1) triggers now_us in (node, out ++ later)

  unfoldable pub advance : Option (Spec K) → Option ℕ → Node K → ℕ → Node K × List (Output K)
  advance none started node now_us = (node, [])
  advance (some spec) none node now_us = (node, [])
  advance (some spec) (some started) node now_us =
      if ltb 0 spec.duration_ms && leb spec.duration_ms (uptime_ms node now_us - started)
      then (finish_run node, state_message (finish_run node) none ∷ exp_done node.run_id ∷ [])
      else evaluate_triggers node 0 spec.triggers now_us

  unfoldable pub advance_experiment : Node K → ℕ → Node K × List (Output K)
  unfolding advance
  advance_experiment node now_us = advance node.spec node.run_started_ms node now_us

  -- One key of the loop of `_evaluate_burst_expiry`.
  unfoldable pub expire_saved : Option Channel → Option ℕ → Node K → K → Node K
  expire_saved none saved node k = node
  expire_saved (some ch) none node k = node
  expire_saved (some ch) (some rate) node k = record node {
    channels = modify k (λ (c : Channel). record c { rate = rate }) node.channels;
    burst_saved = discard k node.burst_saved;
  }

  unfoldable pub expire_burst : Node K → K → Node K
  expire_burst node k =
      expire_saved (get k node.channels) (get k node.burst_saved)
        (record node { burst_until = discard k node.burst_until }) k

  unfoldable pub expired : Dict K ℕ → ℕ → List K
  expired [] now_us = []
  expired ((k, until) ∷ bursts) now_us =
      if leb until now_us then k ∷ expired bursts now_us else expired bursts now_us

  unfoldable pub expire_bursts : Node K → List K → Node K
  expire_bursts node [] = node
  expire_bursts node (k ∷ ks) = expire_bursts (expire_burst node k) ks

  unfoldable pub evaluate_burst_expiry : Node K → ℕ → Node K
  unfolding expired expire_bursts expire_burst expire_saved
  evaluate_burst_expiry node now_us = expire_bursts node (expired node.burst_until now_us)

  -- An armed run whose spec names a time starts then.
  unfoldable pub start_at : StartMode → Option ℕ → Node K → ℕ → Node K × List (Output K)
  start_at at_ms start node now_us =
      if leb (at_or_zero start) (uptime_ms node now_us) then start_run node now_us else (node, [])
  start_at manual start node now_us = (node, [])
  start_at on_boot start node now_us = (node, [])
  start_at on_trigger start node now_us = (node, [])

  unfoldable pub start_armed : Option (Spec K) → Node K → ℕ → Node K × List (Output K)
  start_armed none node now_us = (node, [])
  start_armed (some spec) node now_us = start_at spec.mode spec.start_at_ms node now_us

  unfoldable pub tick_in : RunState → Node K → ℕ → Node K × List (Output K)
  tick_in running node now_us = advance_experiment node now_us
  tick_in armed node now_us = start_armed node.spec node now_us
  tick_in idle node now_us = (node, [])
  tick_in done node now_us = (node, [])

  -- The part of `_master_loop` that is about experiments.
  unfoldable pub tick : Node K → ℕ → Node K × List (Output K)
  unfolding tick_in start_armed start_at at_or_zero
  tick node now_us =
      let node = evaluate_burst_expiry node now_us in tick_in node.run_state node now_us
