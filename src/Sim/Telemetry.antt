-- ===== src/Sim/Telemetry.antt =====
-- transports/sim/node.py, `SimNode._emit_samples` and `_send_telemetry_batches`: samples on their way
-- to the station, and those that wait while the link is down. `V` is the type of a sample's value.
pub mod Batches
pub mod Backlog
use espstation.Common.{
  ℕ, zero, suc, ◌+◌, ◌-◌, ◌/◌, List, [], ◌∷◌, ◌++◌, Bool, true, false, ◌&&◌, ltb, if◌then◌else◌,
  length, take, drop, map,
}

-- `_MAX_SAMPLES_PER_FRAME` and `_MAX_BACKLOG`
abbrev pub max_samples : ℕ
max_samples = 64

abbrev pub max_backlog : ℕ
max_backlog = 2000

-- What one channel has to send: (channel, encoding, value), and the same with its time.
pub record Due (V : Type 0) : Type 0 where
  pub ch : ℕ
  pub enc : ℕ
  pub value : V

pub record Timed (V : Type 0) : Type 0 where
  pub ts_ms : ℕ
  pub due : Due V

pub record Sample (V : Type 0) : Type 0 where
  pub ch : ℕ
  pub dt_ms : ℕ
  pub enc : ℕ
  pub value : V

pub record Telemetry (V : Type 0) : Type 0 where
  pub base_ts_ms : ℕ
  pub flags : ℕ
  pub samples : List (Sample V)

-- The part of a node that telemetry reads and changes.
pub record Store (V : Type 0) : Type 0 where
  pub link_dropped : Bool
  pub link_was_lost_pending : Bool
  pub backlog : List (Timed V)
  pub running : Bool
  pub run_samples : ℕ

flags_of : Bool → Bool → ℕ
flags_of replay gap_before = (if replay then 1 else 0) + (if gap_before then 2 else 0)

module _ {V : Type 0} where
  -- `max(0, ts - base_ts)`
  pub sample_at : ℕ → Timed V → Sample V
  sample_at base_ts e = record {
    ch = e.due.ch;
    dt_ms = e.ts_ms - base_ts;
    enc = e.due.enc;
    value = e.due.value;
  }

  -- `chunk[0][0]`, of a slice that is not empty.
  abbrev pub first_ts : List (Timed V) → ℕ
  first_ts [] = 0
  first_ts (e ∷ chunk) = e.ts_ms

  pub batch_of : Bool → Bool → List (Timed V) → Telemetry V
  unfolding flags_of
  batch_of replay gap_before chunk = record {
    base_ts_ms = first_ts chunk;
    flags = flags_of replay gap_before;
    samples = map (sample_at (first_ts chunk)) chunk;
  }

  -- The rounds of `range(0, len(entries), 64)`.
  pub batch_rounds : ℕ → Bool → Bool → List (Timed V) → List (Telemetry V)
  batch_rounds zero replay gap_before entries = []
  batch_rounds (suc k) replay gap_before entries =
      batch_of replay gap_before (take max_samples entries)
      ∷ batch_rounds k replay gap_before (drop max_samples entries)

  -- The messages of entries, in order.
  unfoldable pub batches : Bool → Bool → List (Timed V) → List (Telemetry V)
  unfolding batch_rounds batch_of sample_at
  batches replay gap_before entries =
      batch_rounds ((length entries + (max_samples - 1)) / max_samples) replay gap_before entries

  -- The packing of a sample and of a message succeeds: each number fits in its field. Whether a value
  -- can be packed in an encoding is an argument.
  abbrev pub sample_packs : (ℕ → V → Bool) → Sample V → Bool
  sample_packs packs s =
      ltb s.ch 0x100 && ltb s.dt_ms 0x10000 && ltb s.enc 0x100 && packs s.enc s.value

  abbrev pub samples_pack : (ℕ → V → Bool) → List (Sample V) → Bool
  samples_pack packs [] = true
  samples_pack packs (s ∷ samples) = sample_packs packs s && samples_pack packs samples

  abbrev pub telemetry_packs : (ℕ → V → Bool) → Telemetry V → Bool
  telemetry_packs packs t =
      ltb 0 (length t.samples)
      && ltb (length t.samples) 65
      && ltb t.base_ts_ms 0x100000000
      && ltb t.flags 0x100
      && samples_pack packs t.samples

  -- What is sent, up to a message that cannot be packed, and whether one raises.
  pub send_messages : (ℕ → V → Bool) → List (Telemetry V) → List (Telemetry V) × Bool
  send_messages packs [] = ([], false)
  send_messages packs (t ∷ ts) =
      let (sent, raised) = send_messages packs ts in
      if telemetry_packs packs t then (t ∷ sent, raised) else ([], true)

  unfoldable pub send_telemetry_batches :
      (ℕ → V → Bool) → Bool → Bool → List (Timed V) → List (Telemetry V) × Bool
  unfolding send_messages
  send_telemetry_batches packs replay gap_before entries =
      send_messages packs (batches replay gap_before entries)

  abbrev pub timed : ℕ → List (Due V) → List (Timed V)
  timed base_ts due = map (λ d. record { ts_ms = base_ts; due = d }) due

  -- Keep samples for later, and at most the last 2000.
  pub buffer : Store V → List (Timed V) → Store V
  buffer store entries =
      let backlog = store.backlog ++ entries in
      record store {
        backlog =
            if ltb max_backlog (length backlog)
            then drop (length backlog - max_backlog) backlog
            else backlog;
      }

  -- The new samples are sent after the replay.
  pub send_new : (ℕ → V → Bool) → Store V → List (Timed V) → Store V × List (Telemetry V) × Bool
  send_new packs store entries =
      let (sent, raised) = send_telemetry_batches packs false store.link_was_lost_pending entries in
      let told = record store { link_was_lost_pending = false } in
      if raised then (told, sent, true) else (
        record told {
          run_samples =
              if store.running then store.run_samples + length entries else store.run_samples;
        },
        sent,
        false,
      )

  -- The backlog is emptied before it is sent.
  pub forward : (ℕ → V → Bool) → Store V → List (Timed V) → Store V × List (Telemetry V) × Bool
  forward packs store entries =
      let (old, raised) = send_telemetry_batches packs true false store.backlog in
      let emptied = record store { backlog = [] } in
      let (after, sent, failed) = send_new packs emptied entries in
      if raised then (emptied, old, true) else (after, old ++ sent, failed)

  -- The node's store, the messages that are sent, and whether the packing of one raises.
  unfoldable pub emit_samples :
      (ℕ → V → Bool) → Store V → ℕ → List (Due V) → Store V × List (Telemetry V) × Bool
  unfolding buffer forward send_new
  emit_samples packs store base_ts due =
      if store.link_dropped
      then (buffer store (timed base_ts due), [], false)
      else forward packs store (timed base_ts due)

  -- The fault `link_drop` of `apply_fault`.
  unfoldable pub drop_link : Store V → Bool → Store V
  drop_link store drop_ =
      if drop_
      then record store { link_dropped = true }
      else if store.link_dropped
      then record store { link_dropped = false; link_was_lost_pending = true }
      else store

  -- The command `store.erase`.
  unfoldable pub erase : Store V → Store V
  erase store = record store { backlog = [] }

  -- The flags of a heartbeat: samples wait, the link is down, and there was a brownout.
  unfoldable pub heartbeat_flags : Store V → Bool → ℕ
  heartbeat_flags store brownout =
      (if ltb 0 (length store.backlog) then 1 else 0)
      + (if store.link_dropped then 2 else 0)
      + (if brownout then 4 else 0)
