-- ===== src/Tests/Gateway.antt =====
-- The station's database of nodes, and its runtime, at concrete inputs.
use espstation.Common.{
  ltb, ℕ, zero, suc, ◌+◌, ◌≤◌, ◌<◌, ◌≡◌, ◌↔◌, ◌⊎◌, refl, arith, List, [], ◌∷◌, Option, none, some,
  Bytes, true, false,
}
use espstation.Common.Dict.{Dict, number_key, get}
use espstation.Protocol.Messages.Fields.{pos}
use espstation.Protocol.NodeDatabase.{
  NdbChannel, ExperimentChannel, NodeDatabase, Value, int_value, float_value, Floats, integer,
  floating, merge_hello, validate_spec,
}
use espstation.Protocol.NodeDatabase.Merging.{
  hellos, last_with_id, last_with_key, merge_all, merge_all-chunks,
}
use espstation.Protocol.NodeDatabase.Validation.{AllKnown, total_rate, validate_spec-none}
use espstation.Sim.Hello.{hello_chunks}
use espstation.Sim.Telemetry.{Sample}
use espstation.Runtime.NodeIds.{is_taken, morse_node_id, morse_node_id-free}
use espstation.Runtime.Sessions.{
  Announcement, Sessions, follows, IsNew, announcement_session, last_session,
  announcement_session-cases,
}
use espstation.Runtime.Samples.{dropped, rows_of, samples_of, sort_samples, sort_samples-counts}
use espstation.Runtime.Commands.{answered, copies, send_command, send_command-answered}
use espstation.Runtime.Runs.{
  StateMessage, running, aborted, IsActive, on_exp_states, on_exp_states-IsActive,
}

abbrev database : NodeDatabase ℕ ℕ
database = record {
  node_id = 7;
  label = 65 ∷ [];
  channels_by_id = (3, record { id = 3; key = 30; type = integer }) ∷ [];
  channels_by_key = (30, record { id = 3; key = 30; type = integer }) ∷ [];
  active_scale = (3, 2) ∷ [];
  active_enc = [];
}

abbrev table : List (NdbChannel ℕ)
table =
    record { id = 4; key = 40; type = floating } ∷ record { id = 5; key = 50; type = integer } ∷ []

-- Payloads of a fixed size for each channel.
abbrev payload : List (NdbChannel ℕ) → Bytes
payload [] = []
payload (ch ∷ ndb) = 1 ∷ 2 ∷ 3 ∷ payload ndb

merge_all-chunks_example :
    let merged = merge_all database (hellos 7 (66 ∷ []) (hello_chunks payload table)) in
    (merged.label ≡ 66 ∷ [])
    × (get 4 merged.channels_by_id ≡ last_with_id 4 table (get 4 database.channels_by_id))
    × (get 50 merged.channels_by_key ≡ last_with_key 50 table (get 50 database.channels_by_key))
    × (merged ≡ merge_hello database (record { node_id = 7; label = 66 ∷ []; ndb = table }))
merge_all-chunks_example = merge_all-chunks payload table database 7 (66 ∷ []) 4 50 (omega arith)

-- Whole numbers in the place of floating-point ones.
abbrev whole_numbers : Floats ℕ
whole_numbers = record {
  whole = λ x. some (pos x);
  of_value = λ value. 1;
  truth = λ value. true;
  times = λ value. λ scale. float_value scale;
  zero_ = 0;
  plus = λ a. λ b. a + b;
  exceeds = λ a. λ b. ltb b a;
}

abbrev plan : List (ExperimentChannel ℕ ℕ)
plan = record { key = 30; rate = 20; enc = none; scale = none } ∷ []

validate_spec-none_example : (validate_spec whole_numbers database plan 100 ≡ []) ↔ (
    AllKnown database plan
    × (whole_numbers.exceeds (total_rate whole_numbers whole_numbers.zero_ plan) 100 ≡ false))
validate_spec-none_example = validate_spec-none whole_numbers database plan 100

abbrev sessions : Sessions
sessions = record {
  announcements = (7, record { link = 1; seen = 2000; ms = 900 }) ∷ [];
  last_session_ms = (7, 900) ∷ [];
}

announcement_session-cases_example :
    (((follows (get 7 sessions.announcements) 1 2500 ≡ true)
        × ((known : Announcement) × (get 7 sessions.announcements ≡ some known)
            × ((announcement_session sessions 1 7 2500 1000).1 ≡ known.ms))
        × (last_session (announcement_session sessions 1 7 2500 1000).0 7
            ≡ last_session sessions 7))
      ⊎ ((follows (get 7 sessions.announcements) 1 2500 ≡ false)
          × IsNew sessions 7 1000 (announcement_session sessions 1 7 2500 1000)))
    × (get 7 (announcement_session sessions 1 7 2500 1000).0.announcements
        ≡ some (record {
          link = 1;
          seen = 2500;
          ms = (announcement_session sessions 1 7 2500 1000).1;
        }))
announcement_session-cases_example = announcement_session-cases sessions 1 7 2500 1000

-- The node answers the second attempt.
abbrev answer : ℕ → Option ℕ
answer zero = none
answer (suc zero) = some 12
answer (suc (suc n)) = none

-- During each attempt two other frames are sent on the link.
abbrev traffic : ℕ → ℕ
traffic n = 2

send_command-answered_example :
    ((send_command 3 answer traffic 7 4 [] 65535).outcome ≡ answered 12)
    × ((send_command 3 answer traffic 7 4 [] 65535).frames ≡ copies 2 0 traffic 5 65535)
send_command-answered_example =
    send_command-answered 3 1 answer traffic 12 7 4 [] 65535 (refl, tt) refl (omega arith)

morse_node_id-free_example :
    (is_taken (0x4d41 ∷ []) (morse_node_id (65 ∷ []) (0x4d41 ∷ [])) ≡ false)
    × (0x4d00 ≤ morse_node_id (65 ∷ []) (0x4d41 ∷ []))
    × (morse_node_id (65 ∷ []) (0x4d41 ∷ []) < 0x4e00)
morse_node_id-free_example = morse_node_id-free (65 ∷ []) (0x4d41 ∷ []) 0 (omega arith) refl

abbrev message : List (Sample (Value ℕ))
message =
    record { ch = 3; dt_ms = 0; enc = 4; value = int_value (pos 8) }
    ∷ record { ch = 9; dt_ms = 5; enc = 4; value = int_value (pos 1) }
    ∷ []

sort_samples-counts_example :
    rows_of 9 (sort_samples whole_numbers (λ ts. ts + 1000) (some database) 50 message []).0
      + dropped (sort_samples whole_numbers (λ ts. ts + 1000) (some database) 50 message []).1 9
    ≡ samples_of 9 message + dropped [] 9
sort_samples-counts_example =
    sort_samples-counts whole_numbers (λ ts. ts + 1000) (some database) 50 message [] 9

abbrev active : Dict ℕ ℕ
active = (8, 3) ∷ []

abbrev told : List StateMessage
told = record { run_id = 5; state = running } ∷ record { run_id = 4; state = aborted } ∷ []

on_exp_states-IsActive_example :
    ((get 7 (on_exp_states active 7 told) ≡ some 5) ↔ IsActive (get 7 active) 5 told)
    × (get 8 (on_exp_states active 7 told) ≡ get 8 active)
on_exp_states-IsActive_example = on_exp_states-IsActive told active 7 8 5 (omega arith)
