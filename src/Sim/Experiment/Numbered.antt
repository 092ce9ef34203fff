-- ===== src/Sim/Experiment/Numbered.antt =====
-- transports/sim/node.py: the numbers of the runs that a node starts, and what its triggers do to them.
use espstation.Common.{
  ℕ, zero, suc, ◌+◌, ◌-◌, ◌*◌, ◌≡◌, refl, ap, ap₂, sym, ◌∙◌, arith, List, [], ◌∷◌, ◌++◌,
  append_assoc, Option, none, some, Bool, true, false, ◌&&◌, Bool-cases, inl, inr, if◌then◌else◌,
  ltb, leb,
}
use espstation.Common.Dict.{Key, get, put, discard, has, number_key}
use espstation.Protocol.Messages.Fields.{ℤ}
use espstation.Sim.Experiment.{
  Channel, Action, set_state, set_rate, burst, stop, mark, reboot, set_gpio, Trigger, Spec,
  RunState, idle, armed, running, done, RunId, Node, trigger_stop, Output, exp_state, exp_start,
  exp_stop, exp_done, exp_mark, exp_reject, fired, sys_reboot, hello, gpio_call, ack,
  backlog_erased, state_message, apply_channel_overrides, start_run, finish_run, starts_on_boot,
  do_reboot, uptime_ms,
}
use espstation.Sim.Experiment.Triggers.{
  begin_burst, do_action, do_actions, fire_trigger, evaluate_condition, since_of, held, measured,
  last_value_of, evaluate_trigger, evaluate_triggers, advance, is_delta,
}

abbrev pub count_up : ℕ → ℕ → List ℕ
count_up zero n = []
count_up (suc k) n = n ∷ count_up k (n + 1)

count_up-append : (a b n : ℕ) → count_up a n ++ count_up b (n + a) ≡ count_up (a + b) n
count_up-append zero b n =
    let same : n + 0 ≡ n = omega arith in
    let same' : 0 + b ≡ b = omega arith in rw (same, same') refl
count_up-append (suc a) b n =
    let shift : n + suc a ≡ n + 1 + a = omega arith in
    let more : suc a + b ≡ suc (a + b) = omega arith in
    rw (shift, more) (ap (◌∷◌ n) (count_up-append a b (n + 1)))

abbrev pub HasValue : Option ℕ → Type 0
HasValue none = ⊥
HasValue (some n) = Unit

abbrev pub seq_of : Option RunId → List ℕ
seq_of none = []
seq_of (some run) = run.run_seq ∷ []

module _ {K : Type 0} ⦃key : Key K⦄ where
  -- The numbers of the runs that outputs announce as started.
  abbrev pub started_runs : List (Output K) → List ℕ
  started_runs [] = []
  started_runs (exp_start run ∷ out) = seq_of run ++ started_runs out
  started_runs (exp_state run state reason ∷ out) = started_runs out
  started_runs (exp_stop run ∷ out) = started_runs out
  started_runs (exp_done run ∷ out) = started_runs out
  started_runs (exp_mark run label ∷ out) = started_runs out
  started_runs (exp_reject errors ∷ out) = started_runs out
  started_runs (fired idx run value ∷ out) = started_runs out
  started_runs (sys_reboot count ∷ out) = started_runs out
  started_runs (hello ∷ out) = started_runs out
  started_runs (gpio_call pin level ∷ out) = started_runs out
  started_runs (ack id reply ∷ out) = started_runs out
  started_runs (backlog_erased ∷ out) = started_runs out

  pub started_runs-append :
      (xs ys : List (Output K)) → started_runs (xs ++ ys) ≡ started_runs xs ++ started_runs ys
  started_runs-append [] ys = refl
  started_runs-append (exp_start run ∷ xs) ys =
      ap (◌++◌ (seq_of run)) (started_runs-append xs ys)
      ∙ sym (append_assoc (seq_of run) (started_runs xs) (started_runs ys))
  started_runs-append (exp_state run state reason ∷ xs) ys = started_runs-append xs ys
  started_runs-append (exp_stop run ∷ xs) ys = started_runs-append xs ys
  started_runs-append (exp_done run ∷ xs) ys = started_runs-append xs ys
  started_runs-append (exp_mark run label ∷ xs) ys = started_runs-append xs ys
  started_runs-append (exp_reject errors ∷ xs) ys = started_runs-append xs ys
  started_runs-append (fired idx run value ∷ xs) ys = started_runs-append xs ys
  started_runs-append (sys_reboot count ∷ xs) ys = started_runs-append xs ys
  started_runs-append (hello ∷ xs) ys = started_runs-append xs ys
  started_runs-append (gpio_call pin level ∷ xs) ys = started_runs-append xs ys
  started_runs-append (ack id reply ∷ xs) ys = started_runs-append xs ys
  started_runs-append (backlog_erased ∷ xs) ys = started_runs-append xs ys

  -- A state that may be: an armed or running node has a spec, and a running one knows when its run
  -- began and has the number of its last run.
  abbrev pub IsPossible : RunState → Option (Spec K) → Option ℕ → Type 0
  IsPossible idle spec started = Unit
  IsPossible done spec started = Unit
  IsPossible armed none started = ⊥
  IsPossible armed (some spec) started = Unit
  IsPossible running none started = ⊥
  IsPossible running (some spec) started = HasValue started

  abbrev pub IsSound : Node K → Type 0
  IsSound node = IsPossible node.run_state node.spec node.run_started_ms

  -- A piece of work that keeps a node sound and numbers the runs it starts one after the other.
  abbrev pub Numbers : Node K → Node K × List (Output K) → Type 0
  Numbers node result =
      IsSound result.0
      × ((n : ℕ) × (started_runs result.1 ≡ count_up n (node.run_seq + 1))
          × (result.0.run_seq ≡ node.run_seq + n))

  Numbers-none :
      (node node' : Node K) (out : List (Output K))
      → IsSound node'
      → node'.run_seq ≡ node.run_seq
      → started_runs out ≡ []
      → Numbers node (node', out)
  Numbers-none node node' out sound same quiet = (sound, (0, quiet, omega (arith, same)))

  pub Numbers-append :
      (node : Node K) (first : Node K × List (Output K)) (second : Node K × List (Output K))
      → Numbers node first
      → Numbers first.0 second
      → Numbers node (second.0, first.1 ++ second.1)
  Numbers-append node first second (sound, (a, runs, seq)) (sound', (b, runs', seq')) =
      let shift : first.0.run_seq + 1 ≡ node.run_seq + 1 + a = omega arith in
      (
        sound',
        (
          a + b,
          started_runs-append first.1 second.1
              ∙ ap₂ ◌++◌ runs (runs' ∙ ap (count_up b) shift)
              ∙ count_up-append a b (node.run_seq + 1),
          omega arith,
        ),
      )

  pub start_run-Numbers :
      (node : Node K) (now_us : ℕ) (spec : Spec K)
      → node.spec ≡ some spec
      → Numbers node (start_run node now_us)
  unfolding start_run apply_channel_overrides state_message
  start_run-Numbers node now_us spec e = (rw e tt, (1, refl, refl))

  pub finish_run-Numbers :
      (node : Node K) (out : List (Output K))
      → started_runs out ≡ []
      → Numbers node (finish_run node, out)
  unfolding finish_run apply_channel_overrides
  finish_run-Numbers node out quiet = (tt, (0, quiet, omega arith))

  -- Outputs in front that start no run.
  pub Numbers-told :
      (node : Node K) (told : List (Output K)) (result : Node K × List (Output K))
      → started_runs told ≡ []
      → Numbers node result
      → Numbers node (result.0, told ++ result.1)
  Numbers-told node told result quiet (sound, (n, runs, seq)) =
      (sound, (n, started_runs-append told result.1 ∙ rw quiet runs, seq))

  starts_on_boot-some :
      (spec : Option (Spec K)) → starts_on_boot spec ≡ true → (s : Spec K) × (spec ≡ some s)
  unfolding starts_on_boot
  starts_on_boot-some none e = cc
  starts_on_boot-some (some s) e = (s, refl)

  pub do_reboot-Numbers : (node : Node K) (now_us : ℕ) → Numbers node (do_reboot node now_us)
  unfolding do_reboot
  do_reboot-Numbers node now_us =
      let booted : Node K = record node {
        boot_count = node.boot_count + 1;
        boot_us = now_us;
        state = 1;
        run_state = idle;
      } in
      let told : List (Output K) = sys_reboot (node.boot_count + 1) ∷ hello ∷ [] in
      elim (Bool-cases (starts_on_boot node.spec)) [
        | inl auto ↦
            let (spec, e) = starts_on_boot-some node.spec auto in
            rw auto (
              Numbers-told node told (start_run booted now_us) refl
                (start_run-Numbers booted now_us spec e))
        | inr rests ↦ rw rests (tt, (0, refl, omega arith))
      ]

  begin_burst-Numbers :
      (ch : Option Channel) (node : Node K) (k : K) (rate ms : Option ℕ) (now_us : ℕ)
      → IsSound node
      → Numbers node (begin_burst ch node k rate ms now_us, [])
  unfolding begin_burst
  begin_burst-Numbers none node k rate ms now_us sound = (sound, (0, refl, omega arith))
  begin_burst-Numbers (some ch) node k none ms now_us sound = (sound, (0, refl, omega arith))
  begin_burst-Numbers (some ch) node k (some rate) ms now_us sound = (sound, (0, refl, omega arith))

  do_action-Numbers :
      (node : Node K) (a : Action K) (now_us : ℕ)
      → IsSound node
      → Numbers node (do_action node a now_us)
  unfolding do_action state_message
  do_action-Numbers node (set_state none) now_us sound = (sound, (0, refl, omega arith))
  do_action-Numbers node (set_state (some code)) now_us sound = (sound, (0, refl, omega arith))
  do_action-Numbers node (set_rate k none) now_us sound = (sound, (0, refl, omega arith))
  do_action-Numbers node (set_rate k (some rate)) now_us sound = (sound, (0, refl, omega arith))
  do_action-Numbers node (burst k rate ms) now_us sound =
      begin_burst-Numbers (get k node.channels) node k rate ms now_us sound
  do_action-Numbers node stop now_us sound =
      finish_run-Numbers node (state_message (finish_run node) (some trigger_stop) ∷ []) refl
  do_action-Numbers node (mark label) now_us sound = (sound, (0, refl, omega arith))
  do_action-Numbers node reboot now_us sound = do_reboot-Numbers node now_us
  do_action-Numbers node (set_gpio pin level) now_us sound = (sound, (0, refl, omega arith))

  do_actions-Numbers :
      (node : Node K) (actions : List (Action K)) (now_us : ℕ)
      → IsSound node
      → Numbers node (do_actions node actions now_us)
  unfolding do_actions
  do_actions-Numbers node [] now_us sound = (sound, (0, refl, omega arith))
  do_actions-Numbers node (a ∷ actions) now_us sound =
      let first = do_action-Numbers node a now_us sound in
      Numbers-append node (do_action node a now_us)
        (do_actions (do_action node a now_us).0 actions now_us) first
        (do_actions-Numbers (do_action node a now_us).0 actions now_us first.0)

  held-Numbers :
      (node : Node K) (idx : ℕ) (trig : Trigger K) (value : ℤ) (now_us : ℕ)
      → IsSound node
      → Numbers node (held node idx trig value now_us)
  unfolding held fire_trigger
  held-Numbers node idx trig value now_us sound =
      let since : ℕ = since_of (get idx node.trigger_since) now_us in
      let fresh : Node K = record node {
        trigger_since = discard idx (put idx since node.trigger_since);
        trigger_fired = put idx tt node.trigger_fired;
      } in
      elim (Bool-cases (ltb (now_us - since) (trig.for_ms * 1000))) [
        | inl early ↦ rw early (sound, (0, refl, omega arith))
        | inr due ↦ rw due (
            Numbers-told node (fired idx node.run_id value ∷ [])
              (do_actions fresh trig.actions now_us) refl
              (do_actions-Numbers fresh trig.actions now_us sound))
      ]

  -- The rest of a round after the condition is known.
  checked-Numbers :
      (condition : Bool) (node : Node K) (idx : ℕ) (trig : Trigger K) (value : ℤ) (now_us : ℕ)
      → IsSound node
      → Numbers node (
          if condition
          then held node idx trig value now_us
          else (record node { trigger_since = discard idx node.trigger_since }, []))
  checked-Numbers true node idx trig value now_us sound =
      held-Numbers node idx trig value now_us sound
  checked-Numbers false node idx trig value now_us sound = (sound, (0, refl, omega arith))

  measured-Numbers :
      (last : Option ℤ) (node : Node K) (idx : ℕ) (trig : Trigger K) (now_us : ℕ)
      → IsSound node
      → Numbers node (measured last node idx trig now_us)
  unfolding measured evaluate_condition
  measured-Numbers none node idx trig now_us sound = (sound, (0, refl, omega arith))
  measured-Numbers (some value) node idx trig now_us sound = elim (Bool-cases (is_delta trig.op)) [
    | inl e ↦ rw e (
        checked-Numbers _ (record node { trigger_prev = put idx value node.trigger_prev }) idx trig
          value now_us sound)
    | inr e ↦ rw e (checked-Numbers _ node idx trig value now_us sound)
  ]

  evaluate_trigger-Numbers :
      (node : Node K) (idx : ℕ) (trig : Trigger K) (now_us : ℕ)
      → IsSound node
      → Numbers node (evaluate_trigger node idx trig now_us)
  unfolding evaluate_trigger
  evaluate_trigger-Numbers node idx trig now_us sound =
      elim (Bool-cases (trig.once && has idx node.trigger_fired)) [
        | inl e ↦ rw e (sound, (0, refl, omega arith))
        | inr e ↦ rw e (
            measured-Numbers (last_value_of (get trig.channel node.channels)) node idx trig now_us
              sound)
      ]

  evaluate_triggers-Numbers :
      (node : Node K) (idx : ℕ) (triggers : List (Trigger K)) (now_us : ℕ)
      → IsSound node
      → Numbers node (evaluate_triggers node idx triggers now_us)
  unfolding evaluate_triggers
  evaluate_triggers-Numbers node idx [] now_us sound = (sound, (0, refl, omega arith))
  evaluate_triggers-Numbers node idx (trig ∷ triggers) now_us sound =
      let first = evaluate_trigger-Numbers node idx trig now_us sound in
      Numbers-append node (evaluate_trigger node idx trig now_us)
        (evaluate_triggers (evaluate_trigger node idx trig now_us).0 (idx + 1) triggers now_us)
        first
        (evaluate_triggers-Numbers (evaluate_trigger node idx trig now_us).0 (idx + 1) triggers
          now_us first.0)

  pub advance-Numbers :
      (spec : Option (Spec K)) (started : Option ℕ) (node : Node K) (now_us : ℕ)
      → IsSound node
      → Numbers node (advance spec started node now_us)
  unfolding advance state_message
  advance-Numbers none started node now_us sound = (sound, (0, refl, omega arith))
  advance-Numbers (some spec) none node now_us sound = (sound, (0, refl, omega arith))
  advance-Numbers (some spec) (some started) node now_us sound =
      elim (Bool-cases
        (ltb 0 spec.duration_ms && leb spec.duration_ms (uptime_ms node now_us - started))) [
          | inl over ↦ rw over (
              finish_run-Numbers node
                (state_message (finish_run node) none ∷ exp_done node.run_id ∷ []) refl)
          | inr runs ↦ rw runs (evaluate_triggers-Numbers node 0 spec.triggers now_us sound)
        ]
