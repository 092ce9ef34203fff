-- ===== src/Sim/Experiment/Sent.antt =====
-- transports/sim/node.py, `SimNode._handle_cmd`: a command whose answer is too long to be sent starts
-- the same runs, since nothing starts a run after an answer.
use espstation.Common.{
  ℕ, ◌≡◌, refl, ap, sym, List, [], ◌∷◌, ◌++◌, Option, none, some, Bool, Bool-cases, inl, inr,
  Result, ok, err, stuck,
}
use espstation.Common.Dict.{Key}
use espstation.Sim.Experiment.{
  Spec, RunState, idle, armed, running, done, RunId, Node, Output, Reply, accepted, ack, exp_state,
  exp_start, exp_stop, exp_done, exp_mark, exp_reject, fired, sys_reboot, hello, gpio_call,
  backlog_erased, state_message, start_run, starts_on_boot, do_reboot,
}
use espstation.Sim.Experiment.Commands.{
  Command, node_ping, node_info, node_reboot, node_set_id, node_set_label, node_set_log_level,
  cmd_exp_start, cmd_exp_stop, cmd_exp_state, store_drain, store_erase, net_scan, other_op, missing,
  no_number, number, ValueError, start_and_ack, start_in, stop_in, run_cmd, send_each,
}
use espstation.Sim.Experiment.Numbered.{started_runs, seq_of}

none_started :
    (run : Option RunId) (l : List ℕ) → seq_of run ++ l ≡ [] → (seq_of run ≡ []) × (l ≡ [])
none_started none l e = (refl, e)
none_started (some run) l e = absurd (cc)

module _ {K : Type 0} ⦃key : Key K⦄ where
  -- A node and what its command sends if every answer fits, or the same node if the command raises.
  unfoldable pub after_cmd :
      Node K → Result ValueError (Node K × List (Output K)) → Node K × List (Output K)
  after_cmd node (ok result) = result
  after_cmd node (err e) = (node, [])
  after_cmd node stuck = (node, [])

  -- Nothing starts a run after an answer.
  abbrev pub AnswersLast : List (Output K) → Type 0
  AnswersLast [] = Unit
  AnswersLast (ack id reply ∷ out) = started_runs out ≡ []
  AnswersLast (exp_state run state reason ∷ out) = AnswersLast out
  AnswersLast (exp_start run ∷ out) = AnswersLast out
  AnswersLast (exp_stop run ∷ out) = AnswersLast out
  AnswersLast (exp_done run ∷ out) = AnswersLast out
  AnswersLast (exp_mark run label ∷ out) = AnswersLast out
  AnswersLast (exp_reject errors ∷ out) = AnswersLast out
  AnswersLast (fired idx run value ∷ out) = AnswersLast out
  AnswersLast (sys_reboot count ∷ out) = AnswersLast out
  AnswersLast (hello ∷ out) = AnswersLast out
  AnswersLast (gpio_call pin level ∷ out) = AnswersLast out
  AnswersLast (backlog_erased ∷ out) = AnswersLast out

  send_each-no_runs :
      (too_long : Reply → Bool) (out : List (Output K))
      → started_runs out ≡ []
      → started_runs (send_each too_long out).0 ≡ started_runs out
  unfolding send_each
  send_each-no_runs too_long [] h = refl
  send_each-no_runs too_long (ack id reply ∷ out) h = elim (Bool-cases (too_long reply)) [
    | inl long ↦ rw long (sym h)
    | inr fits ↦ rw fits (send_each-no_runs too_long out h)
  ]
  send_each-no_runs too_long (exp_state run state reason ∷ out) h = send_each-no_runs too_long out h
  send_each-no_runs too_long (exp_start run ∷ out) h =
      ap (◌++◌ (seq_of run))
        (send_each-no_runs too_long out (none_started run (started_runs out) h).1)
  send_each-no_runs too_long (exp_stop run ∷ out) h = send_each-no_runs too_long out h
  send_each-no_runs too_long (exp_done run ∷ out) h = send_each-no_runs too_long out h
  send_each-no_runs too_long (exp_mark run label ∷ out) h = send_each-no_runs too_long out h
  send_each-no_runs too_long (exp_reject errors ∷ out) h = send_each-no_runs too_long out h
  send_each-no_runs too_long (fired idx run value ∷ out) h = send_each-no_runs too_long out h
  send_each-no_runs too_long (sys_reboot count ∷ out) h = send_each-no_runs too_long out h
  send_each-no_runs too_long (hello ∷ out) h = send_each-no_runs too_long out h
  send_each-no_runs too_long (gpio_call pin level ∷ out) h = send_each-no_runs too_long out h
  send_each-no_runs too_long (backlog_erased ∷ out) h = send_each-no_runs too_long out h

  pub send_each-started_runs :
      (too_long : Reply → Bool) (out : List (Output K))
      → AnswersLast out
      → started_runs (send_each too_long out).0 ≡ started_runs out
  unfolding send_each
  send_each-started_runs too_long [] h = refl
  send_each-started_runs too_long (ack id reply ∷ out) h = elim (Bool-cases (too_long reply)) [
    | inl long ↦ rw long (sym h)
    | inr fits ↦ rw fits (send_each-no_runs too_long out h)
  ]
  send_each-started_runs too_long (exp_state run state reason ∷ out) h =
      send_each-started_runs too_long out h
  send_each-started_runs too_long (exp_start run ∷ out) h =
      ap (◌++◌ (seq_of run)) (send_each-started_runs too_long out h)
  send_each-started_runs too_long (exp_stop run ∷ out) h = send_each-started_runs too_long out h
  send_each-started_runs too_long (exp_done run ∷ out) h = send_each-started_runs too_long out h
  send_each-started_runs too_long (exp_mark run label ∷ out) h =
      send_each-started_runs too_long out h
  send_each-started_runs too_long (exp_reject errors ∷ out) h =
      send_each-started_runs too_long out h
  send_each-started_runs too_long (fired idx run value ∷ out) h =
      send_each-started_runs too_long out h
  send_each-started_runs too_long (sys_reboot count ∷ out) h = send_each-started_runs too_long out h
  send_each-started_runs too_long (hello ∷ out) h = send_each-started_runs too_long out h
  send_each-started_runs too_long (gpio_call pin level ∷ out) h =
      send_each-started_runs too_long out h
  send_each-started_runs too_long (backlog_erased ∷ out) h = send_each-started_runs too_long out h

  reboot-AnswersLast :
      (node : Node K) (id now_us : ℕ)
      → AnswersLast ((do_reboot node now_us).1 ++ ack id accepted ∷ [])
  unfolding do_reboot start_run state_message
  reboot-AnswersLast node id now_us = elim (Bool-cases (starts_on_boot node.spec)) [
    | inl auto ↦ rw auto refl
    | inr rests ↦ rw rests refl
  ]

  start-AnswersLast :
      (state : RunState) (spec : Option (Spec K)) (node : Node K) (id now_us : ℕ)
      → AnswersLast (start_in state spec node id now_us).1
  unfolding start_in start_and_ack start_run state_message
  start-AnswersLast idle none node id now_us = refl
  start-AnswersLast armed none node id now_us = refl
  start-AnswersLast running none node id now_us = refl
  start-AnswersLast done none node id now_us = refl
  start-AnswersLast idle (some spec) node id now_us = refl
  start-AnswersLast armed (some spec) node id now_us = refl
  start-AnswersLast running (some spec) node id now_us = refl
  start-AnswersLast done (some spec) node id now_us = refl

  stop-AnswersLast :
      (state : RunState) (node : Node K) (id : ℕ) → AnswersLast (stop_in state node id).1
  unfolding stop_in state_message
  stop-AnswersLast idle node id = refl
  stop-AnswersLast armed node id = refl
  stop-AnswersLast running node id = refl
  stop-AnswersLast done node id = refl

  pub run_cmd-AnswersLast :
      (node : Node K) (id : ℕ) (cmd : Command) (now_us : ℕ)
      → AnswersLast (after_cmd node (run_cmd node id cmd now_us)).1
  unfolding after_cmd run_cmd state_message
  run_cmd-AnswersLast node id node_ping now_us = refl
  run_cmd-AnswersLast node id node_info now_us = refl
  run_cmd-AnswersLast node id node_reboot now_us = reboot-AnswersLast node id now_us
  run_cmd-AnswersLast node id (node_set_id missing) now_us = refl
  run_cmd-AnswersLast node id (node_set_id no_number) now_us = tt
  run_cmd-AnswersLast node id (node_set_id (number n)) now_us = refl
  run_cmd-AnswersLast node id (node_set_label none) now_us = refl
  run_cmd-AnswersLast node id (node_set_label (some label)) now_us = refl
  run_cmd-AnswersLast node id (node_set_log_level missing) now_us = refl
  run_cmd-AnswersLast node id (node_set_log_level no_number) now_us = tt
  run_cmd-AnswersLast node id (node_set_log_level (number n)) now_us = refl
  run_cmd-AnswersLast node id cmd_exp_start now_us =
      start-AnswersLast node.run_state node.spec node id now_us
  run_cmd-AnswersLast node id cmd_exp_stop now_us = stop-AnswersLast node.run_state node id
  run_cmd-AnswersLast node id cmd_exp_state now_us = refl
  run_cmd-AnswersLast node id store_drain now_us = refl
  run_cmd-AnswersLast node id store_erase now_us = refl
  run_cmd-AnswersLast node id net_scan now_us = refl
  run_cmd-AnswersLast node id other_op now_us = refl
