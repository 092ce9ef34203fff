-- ===== src/Tests/SimNode.antt =====
-- The experiment of a simulated node at concrete inputs.
use espstation.Common.{
  Bool, true, map, ℕ, ◌+◌, ◌≡◌, refl, arith, List, [], ◌∷◌, none, some, true, false,
}
use espstation.Common.Dict.{number_key, get}
use espstation.Protocol.Messages.Fields.{pos}
use espstation.Sim.Experiment.{
  Reply, Channel, ChannelSpec, Op, ge, Action, set_rate, burst, stop, mark, Trigger, StartMode,
  on_boot, Spec, RunState, idle, running, Node, Output, fired, reverted, start_run, finish_run,
}
use espstation.Sim.Experiment.Triggers.{
  evaluate_trigger, burst_ms, evaluate_burst_expiry, do_action,
}
use espstation.Sim.Experiment.Commands.{cmd_exp_start, cmd_exp_stop}
use espstation.Sim.Experiment.Numbered.{IsSound, started_runs, count_up}
use espstation.Sim.Experiment.Lifecycle.{
  Move, tick_at, spec_at, command_at, run_moves, run_moves-Numbers,
}
use espstation.Sim.Experiment.Rates.{planned, on_some, as_declared, start_run-rates}
use espstation.Sim.Experiment.Firing.{IsHolding, rounds, rounds-debounce, rounds-fires}
use espstation.Sim.Experiment.Bursts.{evaluate_burst_expiry-after_run}

abbrev warm : Trigger ℕ
warm = record {
  once = false;
  channel = 2;
  op = ge;
  value = pos 30;
  for_ms = 5;
  actions = burst 2 (some 50) (some 100) ∷ mark 9 ∷ [];
}

abbrev hot : Trigger ℕ
hot = record warm { for_ms = 0; actions = [] }

abbrev spec : Spec ℕ
spec = record {
  schema = 1;
  persist = true;
  duration_ms = 1000;
  mode = on_boot;
  start_at_ms = none;
  channels = record { key = 2; rate = 20; enc = some 4; scale = none } ∷ [];
  triggers = warm ∷ hot ∷ [];
}

abbrev channel : Channel
channel = record {
  ndb_rate = 1;
  rate = 20;
  enc_name = none;
  scale = none;
  last_value = some (pos 31);
}

abbrev node : Node ℕ
node = record {
  node_id = 7;
  boot_count = 1;
  boot_us = 0;
  state = 1;
  label = [];
  log_level = 2;
  channels = (2, channel) ∷ [];
  spec = some spec;
  run_id = none;
  run_state = idle;
  run_started_ms = none;
  run_samples = 0;
  run_seq = 4;
  trigger_since = [];
  trigger_fired = [];
  trigger_prev = [];
  burst_until = (2, 90) ∷ [];
  burst_saved = (2, 20) ∷ [];
}

abbrev all_fit : Reply → Bool
all_fit reply = false

abbrev none_fits : Reply → Bool
none_fits reply = true

abbrev moves : List (Move ℕ)
moves =
    command_at all_fit 1 cmd_exp_start 1000
    ∷ tick_at 50000
    ∷ spec_at spec 60000
    ∷ command_at none_fits 2 cmd_exp_stop 70000
    ∷ []

run_moves-Numbers_example :
    IsSound (run_moves node moves).0
    × ((n : ℕ) × (started_runs (run_moves node moves).1 ≡ count_up n (4 + 1))
        × ((run_moves node moves).0.run_seq ≡ 4 + n))
run_moves-Numbers_example = run_moves-Numbers node moves tt

start_run-rates_example :
    get 2 (start_run node 1000).0.channels
    ≡ on_some (λ ch. planned spec.channels 2 (as_declared ch)) (get 2 node.channels)
start_run-rates_example = start_run-rates node 1000 spec 2 refl

abbrev calm_node : Node ℕ
calm_node = record node { burst_until = []; burst_saved = [] }

calm_channel : get 2 calm_node.channels ≡ some channel
unfolding get
calm_channel = refl

no_burst : get 2 calm_node.burst_saved ≡ none
unfolding get
no_burst = refl

abbrev ended : Node ℕ
ended = finish_run (do_action calm_node (burst 2 (some 50) (some 100)) 5000).0

evaluate_burst_expiry-after_run_example :
    (get 2 ended.channels ≡ some (as_declared channel))
    × (get 2 (evaluate_burst_expiry ended 105000).channels
        ≡ some (record (as_declared channel) { rate = 20 }))
evaluate_burst_expiry-after_run_example =
    evaluate_burst_expiry-after_run calm_node 2 channel 50 (some 100) 5000 105000 calm_channel
      no_burst (unfold burst_ms in omega arith)

warm-IsHolding : IsHolding node 0 warm (pos 31)
unfolding espstation.Sim.Experiment.Triggers.compare_values
    espstation.Sim.Experiment.Triggers.is_delta get
warm-IsHolding = record {
  may = refl;
  channel = channel;
  there = refl;
  last = refl;
  plain = refl;
  holds = refl;
}

hot-IsHolding : IsHolding node 1 hot (pos 31)
unfolding espstation.Sim.Experiment.Triggers.compare_values
    espstation.Sim.Experiment.Triggers.is_delta get
hot-IsHolding = record {
  may = refl;
  channel = channel;
  there = refl;
  last = refl;
  plain = refl;
  holds = refl;
}

first_round : get 0 node.trigger_since ≡ none
unfolding get
first_round = refl

rounds-debounce_example :
    ((rounds node 0 warm (1000 ∷ 3000 ∷ 5999 ∷ [])).1 ≡ [])
    × ((later : List (Output ℕ)) × ((evaluate_trigger
            (rounds node 0 warm (1000 ∷ 3000 ∷ 5999 ∷ [])).0
            0
            warm
            6000).1
          ≡ fired 0 none (pos 31) ∷ later))
rounds-debounce_example =
    rounds-debounce node 0 warm (pos 31) 1000 (3000 ∷ 5999 ∷ []) 6000 warm-IsHolding first_round
      (omega arith, omega arith, (omega arith, omega arith, (omega arith, omega arith, tt)))
      (omega arith)

rounds-fires_example :
    (rounds node 1 hot (1000 ∷ 2000 ∷ 3000 ∷ [])).1
    ≡ map (λ (t : ℕ). fired 1 none (pos 31)) (1000 ∷ 2000 ∷ 3000 ∷ [])
rounds-fires_example =
    rounds-fires node 1 hot (pos 31) (1000 ∷ 2000 ∷ 3000 ∷ []) hot-IsHolding refl refl refl
