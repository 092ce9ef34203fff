-- ===== src/Runtime/Commands.antt =====
-- runtime.py, `send_command`, `_resolve_cmd_ack` and `_on_time_sync_reply`: requests that wait for an
-- answer. What the node answers to each attempt, within the time given, is an argument,
-- and so is how many frames others send on the link meanwhile. The link takes every frame.
use espstation.Common.{
  ℕ, zero, suc, ◌+◌, ◌%◌, ◌≤◌, ◌<◌, ◌≡◌, refl, ap, sym, ◌∙◌, arith, List, [], ◌∷◌, Option, none,
  some, Bool, true, false, ◌&&◌, ◌==◌, if◌then◌else◌,
}
use espstation.Common.Dict.{Dict, number_key, get, discard}

-- The frames of one command: its id, and the number that the link gave the frame.
pub record Sent : Type 0 where
  pub cmd_id : ℕ
  pub seq : ℕ

-- `(node_id, cmd_id)` of the commands that wait; the futures are left out.
pub record Pending : Type 0 where
  pub node_id : ℕ
  pub cmd_id : ℕ

abbrev same_pending : Pending → ℕ → ℕ → Bool
same_pending p node_id cmd_id = p.node_id == node_id && p.cmd_id == cmd_id

unfoldable pub forget : List Pending → ℕ → ℕ → List Pending
forget [] node_id cmd_id = []
forget (p ∷ pending) node_id cmd_id =
    if same_pending p node_id cmd_id
    then forget pending node_id cmd_id
    else p ∷ forget pending node_id cmd_id

unfoldable pub is_pending : List Pending → ℕ → ℕ → Bool
is_pending [] node_id cmd_id = false
is_pending (p ∷ pending) node_id cmd_id =
    if same_pending p node_id cmd_id then true else is_pending pending node_id cmd_id

-- `CommandTimeoutError`, with the number of attempts.
pub data Outcome (A : Type 0) : Type 0 where
  answered : A → Outcome A
  timed_out : ℕ → Outcome A

pub record Trial (A : Type 0) : Type 0 where
  pub pending : List Pending
  pub link_seq : ℕ
  pub frames : List Sent
  pub outcome : Outcome A

-- The frames of so many attempts from one on, when others send frames on the link in between.
abbrev pub copies : ℕ → ℕ → (ℕ → ℕ) → ℕ → ℕ → List Sent
copies zero attempt others cmd_id seq = []
copies (suc k) attempt others cmd_id seq =
    record { cmd_id = cmd_id; seq = seq }
    ∷ copies k (attempt + 1) others cmd_id ((seq + 1 + others attempt) % 0x10000)

module _ {A : Type 0} where
  -- What an attempt comes to: an answer in time, or the attempts after it.
  after_attempt : Option A → List Pending → ℕ → Sent → Trial A → Trial A
  after_attempt none pending next sent rest = record rest { frames = sent ∷ rest.frames }
  after_attempt (some ack) pending next sent rest = record {
    pending = pending;
    link_seq = next;
    frames = sent ∷ [];
    outcome = answered ack;
  }

  -- The loop over the attempts, while others send so many frames on the link during each: `left` are to come, `attempt` have been made.
  attempts : ℕ → ℕ → (ℕ → Option A) → (ℕ → ℕ) → ℕ → ℕ → List Pending → ℕ → Trial A
  attempts zero attempt answer others node_id cmd_id pending link_seq = record {
    pending = pending;
    link_seq = link_seq;
    frames = [];
    outcome = timed_out attempt;
  }
  attempts (suc left) attempt answer others node_id cmd_id pending link_seq =
      let waiting = record { node_id = node_id; cmd_id = cmd_id } ∷ forget pending node_id cmd_id in
      let sent : Sent = record { cmd_id = cmd_id; seq = link_seq } in
      let next = (link_seq + 1 + others attempt) % 0x10000 in
      let rest =
        attempts left (attempt + 1) answer others node_id cmd_id (forget waiting node_id cmd_id)
          next in
      after_attempt (answer attempt) (forget waiting node_id cmd_id) next sent rest

  -- `send_command`, once the link is found: an answer takes the command off the waiting ones
  -- (`_resolve_cmd_ack`), and so does the end of an attempt's time.
  unfoldable pub send_command : ℕ → (ℕ → Option A) → (ℕ → ℕ) → ℕ → ℕ → List Pending → ℕ → Trial A
  unfolding attempts after_attempt
  send_command retries answer others node_id cmd_id_seq pending link_seq =
      attempts (retries + 1) 0 answer others node_id (cmd_id_seq + 1) pending link_seq

  abbrev pub NoAnswer : (ℕ → Option A) → ℕ → ℕ → Type 0
  NoAnswer answer attempt zero = Unit
  NoAnswer answer attempt (suc k) = (answer attempt ≡ none) × NoAnswer answer (attempt + 1) k

  attempts-answered :
      (k left attempt : ℕ) (answer : ℕ → Option A) (others : ℕ → ℕ) (ack : A) (node_id cmd_id : ℕ)
      (pending : List Pending) (link_seq : ℕ)
      → NoAnswer answer attempt k
      → answer (attempt + k) ≡ some ack
      → k < left
      → ((attempts left attempt answer others node_id cmd_id pending link_seq).outcome
          ≡ answered ack)
        × ((attempts left attempt answer others node_id cmd_id pending link_seq).frames
            ≡ copies (suc k) attempt others cmd_id link_seq)
  unfolding attempts after_attempt
  attempts-answered k zero attempt answer others ack node_id cmd_id pending link_seq silent comes
        lt =
      absurd (omega arith)
  attempts-answered zero (suc left) attempt answer others ack node_id cmd_id pending link_seq silent
        comes lt =
      let here : attempt + 0 ≡ attempt = omega arith in
      let comes' : answer attempt ≡ some ack = sym (ap answer here) ∙ comes in
      rw comes' (refl, refl)
  attempts-answered (suc k) (suc left) attempt answer others ack node_id cmd_id pending link_seq
        (none_, silent) comes lt =
      let there : attempt + suc k ≡ attempt + 1 + k = omega arith in
      let (outcome, frames) =
        attempts-answered k left (attempt + 1) answer others ack node_id cmd_id
          (forget (record { node_id = node_id; cmd_id = cmd_id } ∷ forget pending node_id cmd_id)
            node_id cmd_id)
          ((link_seq + 1 + others attempt) % 0x10000) silent (sym (ap answer there) ∙ comes)
          (omega arith) in
      rw none_ (outcome, ap (◌∷◌ (record { cmd_id = cmd_id; seq = link_seq })) frames)

  attempts-timed_out :
      (left attempt : ℕ) (answer : ℕ → Option A) (others : ℕ → ℕ) (node_id cmd_id : ℕ)
      (pending : List Pending) (link_seq : ℕ)
      → NoAnswer answer attempt left
      → ((attempts left attempt answer others node_id cmd_id pending link_seq).outcome
          ≡ timed_out (attempt + left))
        × ((attempts left attempt answer others node_id cmd_id pending link_seq).frames
            ≡ copies left attempt others cmd_id link_seq)
  unfolding attempts after_attempt
  attempts-timed_out zero attempt answer others node_id cmd_id pending link_seq silent =
      (ap timed_out (omega arith), refl)
  attempts-timed_out (suc left) attempt answer others node_id cmd_id pending link_seq
        (none_, silent) =
      let (outcome, frames) =
        attempts-timed_out left (attempt + 1) answer others node_id cmd_id
          (forget (record { node_id = node_id; cmd_id = cmd_id } ∷ forget pending node_id cmd_id)
            node_id cmd_id)
          ((link_seq + 1 + others attempt) % 0x10000) silent in
      let all : attempt + 1 + left ≡ attempt + suc left = omega arith in
      rw none_
        (outcome ∙ ap timed_out all, ap (◌∷◌ (record { cmd_id = cmd_id; seq = link_seq })) frames)

  -- A command whose attempt `k`, counted from 0, is the first one that the node answers in time, within
  -- the retries: it returns that answer, and has sent `k + 1` frames with its own id, each under
  -- the link's next number: one after the one before, and as many more as frames that others have sent
  -- on the link in between.
  pub send_command-answered :
      (retries k : ℕ) (answer : ℕ → Option A) (others : ℕ → ℕ) (ack : A) (node_id cmd_id_seq : ℕ)
      (pending : List Pending) (link_seq : ℕ)
      → NoAnswer answer 0 k
      → answer k ≡ some ack
      → k ≤ retries
      → ((send_command retries answer others node_id cmd_id_seq pending link_seq).outcome
          ≡ answered ack)
        × ((send_command retries answer others node_id cmd_id_seq pending link_seq).frames
            ≡ copies (suc k) 0 others (cmd_id_seq + 1) link_seq)
  unfolding send_command
  send_command-answered retries k answer others ack node_id cmd_id_seq pending link_seq silent comes
        le =
      let start : 0 + k ≡ k = omega arith in
      attempts-answered k (retries + 1) 0 answer others ack node_id (cmd_id_seq + 1) pending
        link_seq silent (ap answer start ∙ comes) (omega arith)

  -- A command that the node never answers in time is sent once and for each retry again, with its own
  -- id and under the link's next numbers, and then raises the time-out that names the number of attempts.
  pub send_command-timed_out :
      (retries : ℕ) (answer : ℕ → Option A) (others : ℕ → ℕ) (node_id cmd_id_seq : ℕ)
      (pending : List Pending) (link_seq : ℕ)
      → NoAnswer answer 0 (retries + 1)
      → ((send_command retries answer others node_id cmd_id_seq pending link_seq).outcome
          ≡ timed_out (retries + 1))
        × ((send_command retries answer others node_id cmd_id_seq pending link_seq).frames
            ≡ copies (retries + 1) 0 others (cmd_id_seq + 1) link_seq)
  unfolding send_command
  send_command-timed_out retries answer others node_id cmd_id_seq pending link_seq silent =
      let (outcome, frames) =
        attempts-timed_out (retries + 1) 0 answer others node_id (cmd_id_seq + 1) pending link_seq
          silent in
      let all : 0 + (retries + 1) ≡ retries + 1 = omega arith in
      (outcome ∙ ap timed_out all, frames)

-- `_time_sync_pending` and `_on_time_sync_reply`: the host time of the request that is out, by node; a
-- reply is recorded only if it answers that request.
pub record SyncReply : Type 0 where
  pub t1_host_us : ℕ
  pub t2_node_ms : ℕ
  pub t3_node_ms : ℕ

-- What `record_time_sync` is called with.
pub record Anchor : Type 0 where
  pub t1_us : ℕ
  pub t2_ms : ℕ
  pub t3_ms : ℕ
  pub t4_us : ℕ

anchor_of : Option ℕ → SyncReply → ℕ → Option Anchor
anchor_of none reply now_us = none
anchor_of (some t1) reply now_us =
    if reply.t1_host_us == t1
    then some
        (record { t1_us = t1; t2_ms = reply.t2_node_ms; t3_ms = reply.t3_node_ms; t4_us = now_us })
    else none

unfoldable pub on_time_sync_reply : Dict ℕ ℕ → ℕ → SyncReply → ℕ → Dict ℕ ℕ × Option Anchor
unfolding anchor_of
on_time_sync_reply pending node_id reply now_us =
    (discard node_id pending, anchor_of (get node_id pending) reply now_us)
