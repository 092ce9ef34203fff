-- ===== src/Sim/Experiment/Replies.antt =====
-- transports/sim/node.py, `SimNode._handle_cmd`: what a node answers.
use espstation.Common.{ℕ, ◌≡◌, List, [], ◌∷◌, Result, ok}
use espstation.Common.Dict.{Key}
use espstation.Sim.Experiment.{
  Node, Output, exp_state, exp_start, exp_stop, exp_done, exp_mark, exp_reject, fired, sys_reboot,
  hello, gpio_call, ack, backlog_erased,
}
use espstation.Sim.Experiment.Commands.{
  no_number, Command, node_set_id, node_set_log_level, ValueError,
}

-- A command whose number, if it has one, is missing or a number.
abbrev pub IsReadable : Command → Type 0
IsReadable (node_set_id no_number) = ⊥
IsReadable (node_set_log_level no_number) = ⊥
IsReadable cmd = Unit

module _ {K : Type 0} ⦃key : Key K⦄ where
  -- The commands that outputs acknowledge.
  abbrev pub acknowledged : List (Output K) → List ℕ
  acknowledged [] = []
  acknowledged (ack id reply ∷ out) = id ∷ acknowledged out
  acknowledged (exp_start run ∷ out) = acknowledged out
  acknowledged (exp_state run state reason ∷ out) = acknowledged out
  acknowledged (exp_stop run ∷ out) = acknowledged out
  acknowledged (exp_done run ∷ out) = acknowledged out
  acknowledged (exp_mark run label ∷ out) = acknowledged out
  acknowledged (exp_reject errors ∷ out) = acknowledged out
  acknowledged (fired idx run value ∷ out) = acknowledged out
  acknowledged (sys_reboot count ∷ out) = acknowledged out
  acknowledged (hello ∷ out) = acknowledged out
  acknowledged (gpio_call pin level ∷ out) = acknowledged out
  acknowledged (backlog_erased ∷ out) = acknowledged out

  abbrev Answers : ℕ → Result ValueError (Node K × List (Output K)) → Type 0
  Answers id result =
      (node : Node K) × (out : List (Output K)) × (result ≡ ok (node, out))
      × (acknowledged out ≡ id ∷ [])
