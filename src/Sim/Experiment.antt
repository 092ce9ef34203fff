-- ===== src/Sim/Experiment.antt =====
-- transports/sim/node.py, the experiment of a `SimNode`: the installed spec, the run, and what a run
-- changes of the channels. `K` is the type of channel keys. Times are whole microseconds of one clock,
-- values are whole numbers with a sign, and rates are natural: one that is not positive is 0. What
-- `set_gpio` does on a trigger's action is in Digital, what reboots do to pins as well.
pub mod Triggers
pub mod Commands
pub mod Numbered
pub mod Sent
pub mod Lifecycle
pub mod Firing
pub mod Rates
pub mod Bursts
pub mod Replies
use espstation.Common.{
  ℕ, zero, suc, ◌+◌, ◌-◌, ◌/◌, List, [], ◌∷◌, ◌++◌, Option, none, some, Bool, true, false, not,
  ◌&&◌, ◌||◌, ◌==◌, if◌then◌else◌, Bytes,
}
use espstation.Common.Dict.{Dict, Key, get, put, has}
use espstation.Protocol.Messages.Fields.{ℤ}

pub record Channel : Type 0 where
  pub ndb_rate : ℕ
  pub rate : ℕ
  pub enc_name : Option ℕ
  pub scale : Option ℕ
  pub last_value : Option ℤ

pub record ChannelSpec (K : Type 0) : Type 0 where
  pub key : K
  pub rate : ℕ
  pub enc : Option ℕ
  pub scale : Option ℕ

pub data Op : Type 0 where
  gt ge lt le eq ne delta : Op

-- The actions of a trigger with the fields that they read. The state of `set_state` is the code that
-- the protocol gives its name, if it gives one.
pub data Action (K : Type 0) : Type 0 where
  set_state : Option ℕ → Action K
  set_rate : K → Option ℕ → Action K
  burst : K → Option ℕ → Option ℕ → Action K
  stop : Action K
  mark : ℕ → Action K
  reboot : Action K
  set_gpio : Option ℕ → Option ℕ → Action K

pub record Trigger (K : Type 0) : Type 0 where
  pub once : Bool
  pub channel : K
  pub op : Op
  pub value : ℤ
  pub for_ms : ℕ
  pub actions : List (Action K)

pub data StartMode : Type 0 where
  manual on_boot at_ms on_trigger : StartMode

pub record Spec (K : Type 0) : Type 0 where
  pub schema : ℕ
  pub persist : Bool
  pub duration_ms : ℕ
  pub mode : StartMode
  pub start_at_ms : Option ℕ
  pub channels : List (ChannelSpec K)
  pub triggers : List (Trigger K)

pub data RunState : Type 0 where
  idle armed running done : RunState

-- `n{node_id}-{boot_count}-{run_seq}`
pub record RunId : Type 0 where
  pub node_id : ℕ
  pub boot_count : ℕ
  pub run_seq : ℕ

pub record Node (K : Type 0) : Type 0 where
  pub node_id : ℕ
  pub boot_count : ℕ
  pub boot_us : ℕ
  pub state : ℕ
  pub label : Bytes
  pub log_level : ℕ
  pub channels : Dict K Channel
  pub spec : Option (Spec K)
  pub run_id : Option RunId
  pub run_state : RunState
  pub run_started_ms : Option ℕ
  pub run_samples : ℕ
  pub run_seq : ℕ
  pub trigger_since : Dict ℕ ℕ
  pub trigger_fired : Dict ℕ (Unit {0})
  pub trigger_prev : Dict ℕ ℤ
  pub burst_until : Dict K ℕ
  pub burst_saved : Dict K ℕ

-- Why a spec is refused by a node.
pub data SpecError (K : Type 0) : Type 0 where
  unsupported_schema : ℕ → SpecError K
  unknown_channel : K → SpecError K
  rate_not_positive : K → SpecError K

-- The reason that a state message gives.
pub data Reason (K : Type 0) : Type 0 where
  stopped_by_operator trigger_stop : Reason K
  refused : List (SpecError K) → Reason K

-- The answer to a command, of which the data is left out.
pub data Reply : Type 0 where
  accepted unknown_op bad_args no_spec busy not_running : Reply

-- What a node sends; the call of `set_gpio`, and the erasure of waiting samples.
pub data Output (K : Type 0) : Type 0 where
  exp_state : Option RunId → RunState → Option (Reason K) → Output K
  exp_start : Option RunId → Output K
  exp_stop : Option RunId → Output K
  exp_done : Option RunId → Output K
  exp_mark : Option RunId → ℕ → Output K
  exp_reject : List (SpecError K) → Output K
  fired : ℕ → Option RunId → ℤ → Output K
  sys_reboot : ℕ → Output K
  hello : Output K
  gpio_call : Option ℕ → Option ℕ → Output K
  ack : ℕ → Reply → Output K
  backlog_erased : Output K

abbrev pub reverted : Channel → Channel
reverted ch = record ch { rate = ch.ndb_rate; enc_name = none; scale = none }

is_on_boot : StartMode → Bool
is_on_boot on_boot = true
is_on_boot manual = false
is_on_boot at_ms = false
is_on_boot on_trigger = false

module _ {K : Type 0} ⦃key : Key K⦄ where
  pub uptime_ms : Node K → ℕ → ℕ
  uptime_ms node now_us = (now_us - node.boot_us) / 1000

  -- `_emit_exp_state`, of which the times and counts are left out.
  pub state_message : Node K → Option (Reason K) → Output K
  state_message node reason = exp_state node.run_id node.run_state reason

  abbrev pub overridden : ChannelSpec K → Channel → Channel
  overridden s ch = record ch { rate = s.rate; enc_name = s.enc; scale = s.scale }

  pub revert_all : Dict K Channel → Dict K Channel
  revert_all [] = []
  revert_all ((k, ch) ∷ channels) = (k, reverted ch) ∷ revert_all channels

  -- A channel under a key, changed in place; a key that is not there changes nothing.
  pub modify : K → (Channel → Channel) → Dict K Channel → Dict K Channel
  modify k f [] = []
  modify k f ((j, ch) ∷ channels) =
      if key.same j k then (j, f ch) ∷ channels else (j, ch) ∷ modify k f channels

  pub override_all : List (ChannelSpec K) → Dict K Channel → Dict K Channel
  override_all [] channels = channels
  override_all (s ∷ specs) channels = override_all specs (modify s.key (overridden s) channels)

  overrides_for : Option (Spec K) → Dict K Channel → Dict K Channel
  overrides_for none channels = revert_all channels
  overrides_for (some spec) channels = override_all spec.channels (revert_all channels)

  unfoldable pub apply_channel_overrides : Node K → Option (Spec K) → Node K
  unfolding overrides_for revert_all override_all modify
  apply_channel_overrides node spec = record node { channels = overrides_for spec node.channels }

  -- The run that a start begins.
  abbrev pub next_run : Node K → RunId
  next_run node = record {
    node_id = node.node_id;
    boot_count = node.boot_count;
    run_seq = node.run_seq + 1;
  }

  unfoldable pub start_run : Node K → ℕ → Node K × List (Output K)
  unfolding uptime_ms state_message
  start_run node now_us =
      let begun =
        apply_channel_overrides
          (record node {
            run_seq = node.run_seq + 1;
            run_id = some (next_run node);
            run_state = running;
            run_started_ms = some (uptime_ms node now_us);
            run_samples = 0;
            trigger_since = [];
            trigger_fired = [];
            trigger_prev = [];
          })
          node.spec in
      (begun, state_message begun none ∷ exp_start begun.run_id ∷ [])

  -- A run comes to its end: the overrides are taken back.
  pub finish_run : Node K → Node K
  finish_run node = apply_channel_overrides (record node { run_state = done }) none

  starts_on_boot : Option (Spec K) → Bool
  starts_on_boot none = false
  starts_on_boot (some spec) = spec.persist && is_on_boot spec.mode

  unfoldable pub do_reboot : Node K → ℕ → Node K × List (Output K)
  unfolding starts_on_boot is_on_boot
  do_reboot node now_us =
      let booted = record node {
        boot_count = node.boot_count + 1;
        boot_us = now_us;
        state = 1;
        run_state = idle;
      } in
      let told = sys_reboot booted.boot_count ∷ hello ∷ [] in
      if starts_on_boot node.spec
      then (let (started, out) = start_run booted now_us in (started, told ++ out))
      else (booted, told)

  channel_errors : List (ChannelSpec K) → Dict K Channel → List (SpecError K)
  channel_errors [] channels = []
  channel_errors (s ∷ specs) channels =
      let rest = channel_errors specs channels in
      if not (has s.key channels)
      then unknown_channel s.key ∷ rest
      else if s.rate == 0
      then rate_not_positive s.key ∷ rest
      else rest

  unfoldable pub validate_spec : Node K → Spec K → List (SpecError K)
  unfolding channel_errors
  validate_spec node spec =
      (if spec.schema == 1 then [] else unsupported_schema spec.schema ∷ [])
      ++ channel_errors spec.channels node.channels

  install : List (SpecError K) → Node K → Spec K → ℕ → Node K × List (Output K)
  install (e ∷ errors) node spec now_us =
      (node, exp_reject (e ∷ errors) ∷ state_message node (some (refused (e ∷ errors))) ∷ [])
  install [] node spec now_us =
      let armed_node = record node { spec = some spec; run_state = armed } in
      let told = state_message armed_node none ∷ [] in
      if is_on_boot spec.mode
      then (let (started, out) = start_run armed_node now_us in (started, told ++ out))
      else (armed_node, told)

  unfoldable pub handle_exp_set : Node K → Spec K → ℕ → Node K × List (Output K)
  unfolding install is_on_boot
  handle_exp_set node spec now_us = install (validate_spec node spec) node spec now_us
