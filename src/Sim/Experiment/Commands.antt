-- ===== src/Sim/Experiment/Commands.antt =====
-- transports/sim/node.py, `SimNode._handle_cmd`: the commands of the station.
use espstation.Common.{
  ℕ, List, [], ◌∷◌, ◌++◌, Option, none, some, Bytes, Result, ok, err, stuck, Bool, if◌then◌else◌,
}
use espstation.Common.Dict.{Key}
use espstation.Sim.Experiment.{
  Spec, RunState, idle, armed, running, done, Node, stopped_by_operator, Reply, Output, exp_state,
  exp_start, exp_done, exp_mark, exp_reject, fired, sys_reboot, hello, gpio_call, exp_stop, ack,
  backlog_erased, accepted, unknown_op, bad_args, no_spec, busy, not_running, state_message,
  start_run, finish_run, do_reboot,
}

-- `args[name]` and what `int` makes of it: the argument is missing, a number, or no number.
pub data Argument : Type 0 where
  missing no_number : Argument
  number : ℕ → Argument

pub data Command : Type 0 where
  node_ping node_info node_reboot : Command
  node_set_id : Argument → Command
  node_set_label : Option Bytes → Command
  node_set_log_level : Argument → Command
  cmd_exp_start cmd_exp_stop cmd_exp_state : Command
  store_drain store_erase net_scan : Command
  other_op : Command

-- What `int` raises, and what the building of a frame raises for an answer that has more bytes than a
-- frame takes; `_handle_cmd` catches neither.
pub data ValueError : Type 0 where
  invalid_literal payload_too_long : ValueError

module _ {K : Type 0} ⦃key : Key K⦄ where
  unfoldable pub start_and_ack : Node K → ℕ → ℕ → Node K × List (Output K)
  start_and_ack node id now_us =
      let (node, out) = start_run node now_us in (node, out ++ ack id accepted ∷ [])

  unfoldable pub start_in : RunState → Option (Spec K) → Node K → ℕ → ℕ → Node K × List (Output K)
  start_in state none node id now_us = (node, ack id no_spec ∷ [])
  start_in running (some spec) node id now_us = (node, ack id busy ∷ [])
  start_in idle (some spec) node id now_us = start_and_ack node id now_us
  start_in armed (some spec) node id now_us = start_and_ack node id now_us
  start_in done (some spec) node id now_us = start_and_ack node id now_us

  unfoldable pub stop_in : RunState → Node K → ℕ → Node K × List (Output K)
  stop_in running node id = (
    finish_run node,
    state_message (finish_run node) (some stopped_by_operator)
        ∷ exp_stop node.run_id
        ∷ ack id accepted
        ∷ [],
  )
  stop_in idle node id = (node, ack id not_running ∷ [])
  stop_in armed node id = (node, ack id not_running ∷ [])
  stop_in done node id = (node, ack id not_running ∷ [])

  unfoldable pub set_number :
      Argument → (ℕ → Node K) → Node K → ℕ → Result ValueError (Node K × List (Output K))
  set_number missing change node id = ok (node, ack id bad_args ∷ [])
  set_number no_number change node id = err invalid_literal
  set_number (number n) change node id = ok (change n, ack id accepted ∷ [])

  -- The branch of a command, and what it sends if every answer fits in a frame.
  unfoldable pub run_cmd : Node K → ℕ → Command → ℕ → Result ValueError (Node K × List (Output K))
  unfolding start_in stop_in set_number start_and_ack
  run_cmd node id node_ping now_us = ok (node, ack id accepted ∷ [])
  run_cmd node id node_info now_us = ok (node, ack id accepted ∷ [])
  run_cmd node id node_reboot now_us =
      let (node, out) = do_reboot node now_us in ok (node, out ++ ack id accepted ∷ [])
  run_cmd node id (node_set_id arg) now_us =
      set_number arg (λ n. record node { node_id = n }) node id
  run_cmd node id (node_set_label none) now_us = ok (node, ack id bad_args ∷ [])
  run_cmd node id (node_set_label (some label)) now_us =
      ok (record node { label = label }, ack id accepted ∷ [])
  run_cmd node id (node_set_log_level arg) now_us =
      set_number arg (λ n. record node { log_level = n }) node id
  run_cmd node id cmd_exp_start now_us = ok (start_in node.run_state node.spec node id now_us)
  run_cmd node id cmd_exp_stop now_us = ok (stop_in node.run_state node id)
  run_cmd node id cmd_exp_state now_us = ok (node, ack id accepted ∷ state_message node none ∷ [])
  run_cmd node id store_drain now_us = ok (node, ack id accepted ∷ [])
  run_cmd node id store_erase now_us = ok (node, backlog_erased ∷ ack id accepted ∷ [])
  run_cmd node id net_scan now_us = ok (node, ack id accepted ∷ [])
  run_cmd node id other_op now_us = ok (node, ack id unknown_op ∷ [])

  -- What is sent, up to an answer that is too long. The text of an answer is left out, so which answers
  -- are too long is an argument.
  unfoldable pub send_each : (Reply → Bool) → List (Output K) → List (Output K) × Option ValueError
  send_each too_long [] = ([], none)
  send_each too_long (ack id reply ∷ out) =
      let (sent, raised) = send_each too_long out in
      if too_long reply then ([], some payload_too_long) else (ack id reply ∷ sent, raised)
  send_each too_long (exp_state run state reason ∷ out) =
      let (sent, raised) = send_each too_long out in (exp_state run state reason ∷ sent, raised)
  send_each too_long (exp_start run ∷ out) =
      let (sent, raised) = send_each too_long out in (exp_start run ∷ sent, raised)
  send_each too_long (exp_stop run ∷ out) =
      let (sent, raised) = send_each too_long out in (exp_stop run ∷ sent, raised)
  send_each too_long (exp_done run ∷ out) =
      let (sent, raised) = send_each too_long out in (exp_done run ∷ sent, raised)
  send_each too_long (exp_mark run label ∷ out) =
      let (sent, raised) = send_each too_long out in (exp_mark run label ∷ sent, raised)
  send_each too_long (exp_reject errors ∷ out) =
      let (sent, raised) = send_each too_long out in (exp_reject errors ∷ sent, raised)
  send_each too_long (fired idx run value ∷ out) =
      let (sent, raised) = send_each too_long out in (fired idx run value ∷ sent, raised)
  send_each too_long (sys_reboot count ∷ out) =
      let (sent, raised) = send_each too_long out in (sys_reboot count ∷ sent, raised)
  send_each too_long (hello ∷ out) =
      let (sent, raised) = send_each too_long out in (hello ∷ sent, raised)
  send_each too_long (gpio_call pin level ∷ out) =
      let (sent, raised) = send_each too_long out in (gpio_call pin level ∷ sent, raised)
  send_each too_long (backlog_erased ∷ out) =
      let (sent, raised) = send_each too_long out in (backlog_erased ∷ sent, raised)

  unfoldable pub send_cmd :
      (Reply → Bool)
      → Node K
      → Result ValueError (Node K × List (Output K))
      → Node K × List (Output K) × Option ValueError
  send_cmd too_long node (ok (node', out)) =
      let (sent, raised) = send_each too_long out in (node', sent, raised)
  send_cmd too_long node (err e) = (node, [], some e)
  send_cmd too_long node stuck = (node, [], none)

  -- The node after a command, what it has sent, and what the command raises. No branch changes the node
  -- after its answer.
  unfoldable pub handle_cmd :
      (Reply → Bool) → Node K → ℕ → Command → ℕ → Node K × List (Output K) × Option ValueError
  unfolding send_cmd send_each
  handle_cmd too_long node id cmd now_us = send_cmd too_long node (run_cmd node id cmd now_us)
