-- ===== src/Sim/Experiment/Lifecycle.antt =====
-- transports/sim/node.py: a node's run over any ticks, installed specs and commands.
use espstation.Common.{
  Bool, ℕ, ◌+◌, ◌≡◌, refl, ap, sym, ◌∙◌, subst, arith, List, [], ◌∷◌, ◌++◌, append-nil, Option,
  none, some, Bool-cases, inl, inr, leb, Result, ok, err, stuck,
}
use espstation.Common.Dict.{Key, get, discard, number_key}
use espstation.Sim.Experiment.{
  Reply, Channel, Spec, StartMode, manual, on_boot, at_ms, on_trigger, RunState, idle, armed,
  running, done, Node, SpecError, stopped_by_operator, Output, exp_stop, accepted, ack,
  state_message, start_run, finish_run, is_on_boot, do_reboot, install, validate_spec,
  handle_exp_set, uptime_ms,
}
use espstation.Sim.Experiment.Triggers.{
  advance_experiment, expire_saved, expire_burst, expired, expire_bursts, evaluate_burst_expiry,
  start_at, start_armed, tick_in, tick, at_or_zero,
}
use espstation.Sim.Experiment.Commands.{
  missing, no_number, number, Command, node_ping, node_info, node_reboot, node_set_id,
  node_set_label, node_set_log_level, cmd_exp_start, cmd_exp_stop, cmd_exp_state, store_drain,
  store_erase, net_scan, other_op, ValueError, start_in, stop_in, start_and_ack, handle_cmd,
  run_cmd, send_cmd,
}
use espstation.Sim.Experiment.Sent.{
  after_cmd, AnswersLast, send_each-started_runs, run_cmd-AnswersLast,
}
use espstation.Sim.Experiment.Numbered.{
  count_up, IsPossible, IsSound, Numbers, started_runs, started_runs-append, Numbers-told,
  Numbers-append, finish_run-Numbers, start_run-Numbers, do_reboot-Numbers, advance-Numbers,
}

-- What happens to the experiment of a node: a tick, a spec from the station, or a command.
pub data Move (K : Type 0) : Type 0 where
  tick_at : ℕ → Move K
  spec_at : Spec K → ℕ → Move K
  command_at : (Reply → Bool) → ℕ → Command → ℕ → Move K

module _ {K : Type 0} ⦃key : Key K⦄ where
  -- A change that leaves the run alone.
  abbrev SameRun : Node K → Node K → Type 0
  SameRun node node' =
      (node'.run_state ≡ node.run_state)
      × (node'.spec ≡ node.spec)
      × (node'.run_started_ms ≡ node.run_started_ms)
      × (node'.run_seq ≡ node.run_seq)

  SameRun-IsSound : (node node' : Node K) → SameRun node node' → IsSound node → IsSound node'
  SameRun-IsSound node node' (a, b, c, d) sound =
      subst (λ (s : RunState). IsPossible s node'.spec node'.run_started_ms) (sym a)
        (subst (λ (s : Option (Spec K)). IsPossible node.run_state s node'.run_started_ms) (sym b)
          (subst (λ (s : Option ℕ). IsPossible node.run_state node.spec s) (sym c) sound))

  expire_saved-SameRun :
      (ch : Option Channel) (saved : Option ℕ) (node : Node K) (k : K)
      → SameRun node (expire_saved ch saved node k)
  unfolding expire_saved
  expire_saved-SameRun none saved node k = (refl, refl, refl, refl)
  expire_saved-SameRun (some ch) none node k = (refl, refl, refl, refl)
  expire_saved-SameRun (some ch) (some rate) node k = (refl, refl, refl, refl)

  expire_bursts-SameRun : (node : Node K) (ks : List K) → SameRun node (expire_bursts node ks)
  unfolding expire_bursts expire_burst
  expire_bursts-SameRun node [] = (refl, refl, refl, refl)
  expire_bursts-SameRun node (k ∷ ks) =
      let (a, b, c, d) =
        expire_saved-SameRun (get k node.channels) (get k node.burst_saved)
          (record node { burst_until = discard k node.burst_until }) k in
      let (a', b', c', d') = expire_bursts-SameRun (expire_burst node k) ks in
      (a' ∙ a, b' ∙ b, c' ∙ c, d' ∙ d)

  start_at-Numbers :
      (mode : StartMode) (start : Option ℕ) (node : Node K) (now_us : ℕ) (spec : Spec K)
      → node.spec ≡ some spec
      → IsSound node
      → Numbers node (start_at mode start node now_us)
  unfolding start_at
  start_at-Numbers manual start node now_us spec e sound = (sound, (0, refl, omega arith))
  start_at-Numbers on_boot start node now_us spec e sound = (sound, (0, refl, omega arith))
  start_at-Numbers on_trigger start node now_us spec e sound = (sound, (0, refl, omega arith))
  start_at-Numbers at_ms start node now_us spec e sound =
      elim (Bool-cases (leb (at_or_zero start) (uptime_ms node now_us))) [
        | inl late ↦ rw late (start_run-Numbers node now_us spec e)
        | inr early ↦ rw early (sound, (0, refl, omega arith))
      ]

  start_armed-Numbers :
      (spec : Option (Spec K)) (node : Node K) (now_us : ℕ)
      → node.spec ≡ spec
      → IsSound node
      → Numbers node (start_armed spec node now_us)
  unfolding start_armed
  start_armed-Numbers none node now_us e sound = (sound, (0, refl, omega arith))
  start_armed-Numbers (some spec) node now_us e sound =
      start_at-Numbers spec.mode spec.start_at_ms node now_us spec e sound

  tick_in-Numbers :
      (state : RunState) (node : Node K) (now_us : ℕ)
      → IsSound node
      → Numbers node (tick_in state node now_us)
  unfolding tick_in advance_experiment
  tick_in-Numbers idle node now_us sound = (sound, (0, refl, omega arith))
  tick_in-Numbers done node now_us sound = (sound, (0, refl, omega arith))
  tick_in-Numbers armed node now_us sound = start_armed-Numbers node.spec node now_us refl sound
  tick_in-Numbers running node now_us sound =
      advance-Numbers node.spec node.run_started_ms node now_us sound

  tick-Numbers : (node : Node K) (now_us : ℕ) → IsSound node → Numbers node (tick node now_us)
  unfolding tick evaluate_burst_expiry
  tick-Numbers node now_us sound =
      let calm : Node K = expire_bursts node (expired node.burst_until now_us) in
      let same = expire_bursts-SameRun node (expired node.burst_until now_us) in
      let (sound', (n, runs, seq)) =
        tick_in-Numbers calm.run_state calm now_us (SameRun-IsSound node calm same sound) in
      let (_, _, _, number_) = same in
      (sound', (n, runs ∙ ap (λ (m : ℕ). count_up n (m + 1)) number_, omega (arith, seq, number_)))

  install-Numbers :
      (errors : List (SpecError K)) (node : Node K) (spec : Spec K) (now_us : ℕ)
      → IsSound node
      → Numbers node (install errors node spec now_us)
  unfolding install state_message
  install-Numbers (e ∷ errors) node spec now_us sound = (sound, (0, refl, omega arith))
  install-Numbers [] node spec now_us sound =
      let ready : Node K = record node { spec = some spec; run_state = armed } in
      elim (Bool-cases (is_on_boot spec.mode)) [
        | inl auto ↦ rw auto (
            Numbers-told node (state_message ready none ∷ []) (start_run ready now_us) refl
              (start_run-Numbers ready now_us spec refl))
        | inr waits ↦ rw waits (tt, (0, refl, omega arith))
      ]

  start_and_ack-Numbers :
      (node : Node K) (id now_us : ℕ) (spec : Spec K)
      → node.spec ≡ some spec
      → Numbers node (start_and_ack node id now_us)
  unfolding start_and_ack
  start_and_ack-Numbers node id now_us spec e =
      let (sound, (n, runs, seq)) = start_run-Numbers node now_us spec e in
      (
        sound,
        (
          n,
          started_runs-append (start_run node now_us).1 (ack id accepted ∷ [])
              ∙ append-nil (started_runs (start_run node now_us).1)
              ∙ runs,
          seq,
        ),
      )

  start_in-Numbers :
      (state : RunState) (spec : Option (Spec K)) (node : Node K) (id now_us : ℕ)
      → node.spec ≡ spec
      → IsSound node
      → Numbers node (start_in state spec node id now_us)
  unfolding start_in
  start_in-Numbers idle none node id now_us e sound = (sound, (0, refl, omega arith))
  start_in-Numbers armed none node id now_us e sound = (sound, (0, refl, omega arith))
  start_in-Numbers running none node id now_us e sound = (sound, (0, refl, omega arith))
  start_in-Numbers done none node id now_us e sound = (sound, (0, refl, omega arith))
  start_in-Numbers running (some spec) node id now_us e sound = (sound, (0, refl, omega arith))
  start_in-Numbers idle (some spec) node id now_us e sound =
      start_and_ack-Numbers node id now_us spec e
  start_in-Numbers armed (some spec) node id now_us e sound =
      start_and_ack-Numbers node id now_us spec e
  start_in-Numbers done (some spec) node id now_us e sound =
      start_and_ack-Numbers node id now_us spec e

  stop_in-Numbers :
      (state : RunState) (node : Node K) (id : ℕ)
      → IsSound node
      → Numbers node (stop_in state node id)
  unfolding stop_in state_message
  stop_in-Numbers idle node id sound = (sound, (0, refl, omega arith))
  stop_in-Numbers armed node id sound = (sound, (0, refl, omega arith))
  stop_in-Numbers done node id sound = (sound, (0, refl, omega arith))
  stop_in-Numbers running node id sound =
      finish_run-Numbers node
        (state_message (finish_run node) (some stopped_by_operator)
          ∷ exp_stop node.run_id
          ∷ ack id accepted
          ∷ [])
        refl

  run_cmd-Numbers :
      (node : Node K) (id : ℕ) (cmd : Command) (now_us : ℕ)
      → IsSound node
      → Numbers node (after_cmd node (run_cmd node id cmd now_us))
  unfolding after_cmd run_cmd state_message
  run_cmd-Numbers node id node_ping now_us sound = (sound, (0, refl, omega arith))
  run_cmd-Numbers node id node_info now_us sound = (sound, (0, refl, omega arith))
  run_cmd-Numbers node id node_reboot now_us sound =
      let (sound', (n, runs, seq)) = do_reboot-Numbers node now_us in
      (
        sound',
        (
          n,
          started_runs-append (do_reboot node now_us).1 (ack id accepted ∷ [])
              ∙ append-nil (started_runs (do_reboot node now_us).1)
              ∙ runs,
          seq,
        ),
      )
  run_cmd-Numbers node id (node_set_id missing) now_us sound = (sound, (0, refl, omega arith))
  run_cmd-Numbers node id (node_set_id no_number) now_us sound = (sound, (0, refl, omega arith))
  run_cmd-Numbers node id (node_set_id (number n)) now_us sound = (sound, (0, refl, omega arith))
  run_cmd-Numbers node id (node_set_label none) now_us sound = (sound, (0, refl, omega arith))
  run_cmd-Numbers node id (node_set_label (some label)) now_us sound =
      (sound, (0, refl, omega arith))
  run_cmd-Numbers node id (node_set_log_level missing) now_us sound =
      (sound, (0, refl, omega arith))
  run_cmd-Numbers node id (node_set_log_level no_number) now_us sound =
      (sound, (0, refl, omega arith))
  run_cmd-Numbers node id (node_set_log_level (number n)) now_us sound =
      (sound, (0, refl, omega arith))
  run_cmd-Numbers node id cmd_exp_start now_us sound =
      start_in-Numbers node.run_state node.spec node id now_us refl sound
  run_cmd-Numbers node id cmd_exp_stop now_us sound = stop_in-Numbers node.run_state node id sound
  run_cmd-Numbers node id cmd_exp_state now_us sound = (sound, (0, refl, omega arith))
  run_cmd-Numbers node id store_drain now_us sound = (sound, (0, refl, omega arith))
  run_cmd-Numbers node id store_erase now_us sound = (sound, (0, refl, omega arith))
  run_cmd-Numbers node id net_scan now_us sound = (sound, (0, refl, omega arith))
  run_cmd-Numbers node id other_op now_us sound = (sound, (0, refl, omega arith))

  send_cmd-Numbers :
      (too_long : Reply → Bool) (node : Node K)
      (result : Result ValueError (Node K × List (Output K)))
      → AnswersLast (after_cmd node result).1
      → Numbers node (after_cmd node result)
      → Numbers node ((send_cmd too_long node result).0, (send_cmd too_long node result).1)
  unfolding after_cmd send_cmd
  send_cmd-Numbers too_long node (ok (node', out)) last (sound, (n, runs, seq)) =
      (sound, (n, send_each-started_runs too_long out last ∙ runs, seq))
  send_cmd-Numbers too_long node (err e) last numbers = numbers
  send_cmd-Numbers too_long node stuck last numbers = numbers

  unfoldable pub move : Node K → Move K → Node K × List (Output K)
  move node (tick_at now_us) = tick node now_us
  move node (spec_at spec now_us) = handle_exp_set node spec now_us
  move node (command_at too_long id cmd now_us) =
      let (node, sent, raised) = handle_cmd too_long node id cmd now_us in (node, sent)

  unfoldable pub run_moves : Node K → List (Move K) → Node K × List (Output K)
  run_moves node [] = (node, [])
  run_moves node (m ∷ moves) =
      let (node, out) = move node m in
      let (node, later) = run_moves node moves in (node, out ++ later)

  move-Numbers : (node : Node K) (m : Move K) → IsSound node → Numbers node (move node m)
  unfolding move handle_exp_set handle_cmd
  move-Numbers node (tick_at now_us) sound = tick-Numbers node now_us sound
  move-Numbers node (spec_at spec now_us) sound =
      install-Numbers (validate_spec node spec) node spec now_us sound
  move-Numbers node (command_at too_long id cmd now_us) sound =
      send_cmd-Numbers too_long node (run_cmd node id cmd now_us)
        (run_cmd-AnswersLast node id cmd now_us) (run_cmd-Numbers node id cmd now_us sound)

  -- Over any ticks, installed specs and commands, with everything that triggers do in between: a node
  -- that is armed or running has a spec, and one that is running knows when its run began, if that
  -- held before; and the runs that the node announces as started have the numbers that follow its
  -- last run's one after the other, so that no number is given twice.
  pub run_moves-Numbers :
      (node : Node K) (moves : List (Move K))
      → IsSound node
      → IsSound (run_moves node moves).0
        × ((n : ℕ) × (started_runs (run_moves node moves).1 ≡ count_up n (node.run_seq + 1))
            × ((run_moves node moves).0.run_seq ≡ node.run_seq + n))
  unfolding run_moves
  run_moves-Numbers node [] sound = (sound, (0, refl, omega arith))
  run_moves-Numbers node (m ∷ moves) sound =
      let first = move-Numbers node m sound in
      Numbers-append node (move node m) (run_moves (move node m).0 moves) first
        (run_moves-Numbers (move node m).0 moves first.0)
