-- ===== src/Runtime/Runs.antt =====
-- runtime.py, `_on_exp_state`: the run of each node that is recorded with its samples. What the store
-- records of a run is left out.
use espstation.Common.{
  ℕ, ◌≡◌, ◌≢◌, ◌⊎◌, ◌↔◌, refl, ap, sym, ◌∙◌, arith, List, [], ◌∷◌, Option, none, some, Bool, true,
  false, ◌==◌, ==_self, ◌&&◌, if◌then◌else◌, Bool-cases, inl, inr,
}
use espstation.Common.Dict.{Dict, number_key, get, put, discard, get-put, get-discard}

pub data ExpState : Type 0 where
  idle armed running paused done aborted : ExpState

pub record StateMessage : Type 0 where
  pub run_id : ℕ
  pub state : ExpState

pub is_over : ExpState → Bool
is_over done = true
is_over aborted = true
is_over idle = false
is_over armed = false
is_over running = false
is_over paused = false

pub is_run : Option ℕ → ℕ → Bool
is_run none run_id = false
is_run (some active) run_id = active == run_id

-- The branch that is no start of a run.
after_state : Dict ℕ ℕ → ℕ → StateMessage → Dict ℕ ℕ
after_state active node_id message =
    if is_run (get node_id active) message.run_id && is_over message.state
    then discard node_id active
    else active

pub is_running : ExpState → Bool
is_running running = true
is_running done = false
is_running aborted = false
is_running idle = false
is_running armed = false
is_running paused = false

unfoldable pub on_exp_state : Dict ℕ ℕ → ℕ → StateMessage → Dict ℕ ℕ
unfolding after_state is_over is_run is_running
on_exp_state active node_id message =
    if is_running message.state
    then put node_id message.run_id active
    else after_state active node_id message

-- The messages of one node, one after the other.
unfoldable pub on_exp_states : Dict ℕ ℕ → ℕ → List StateMessage → Dict ℕ ℕ
on_exp_states active node_id [] = active
on_exp_states active node_id (m ∷ messages) =
    on_exp_states (on_exp_state active node_id m) node_id messages

-- The run that is active after messages.
abbrev active_after : Option ℕ → List StateMessage → Option ℕ
active_after run [] = run
active_after run (m ∷ messages) =
    active_after
      (if is_running m.state
        then some m.run_id
        else if is_run run m.run_id && is_over m.state
        then none
        else run)
      messages

-- Messages that leave a run active: none starts a run, and none says that this run is over.
abbrev pub StaysActive : ℕ → List StateMessage → Type 0
StaysActive run [] = Unit
StaysActive run (m ∷ messages) =
    (m.state ≢ running)
    × ((m.run_id ≢ run) ⊎ ((m.state ≢ done) × (m.state ≢ aborted)))
    × StaysActive run messages

-- Messages of which one starts the run, and those after it leave it active.
abbrev pub BecomesActive : ℕ → List StateMessage → Type 0
BecomesActive run [] = ⊥
BecomesActive run (m ∷ messages) =
    ((m.run_id ≡ run) × (m.state ≡ running) × StaysActive run messages) ⊎ BecomesActive run messages

-- A run was active before and stays so, or becomes active.
abbrev pub IsActive : Option ℕ → ℕ → List StateMessage → Type 0
IsActive before run messages =
    ((before ≡ some run) × StaysActive run messages) ⊎ BecomesActive run messages

same_node :
    (active : Dict ℕ ℕ) (node_id other : ℕ)
    → get other active ≡ (if node_id == other then get node_id active else get other active)
same_node active node_id other = elim (Bool-cases (node_id == other)) [
  | inl same ↦ let here : node_id ≡ other = ground arith in rw same (rw here refl)
  | inr apart ↦ rw apart refl
]

on_exp_state-get :
    (active : Dict ℕ ℕ) (node_id : ℕ) (m : StateMessage) (other : ℕ)
    → get other (on_exp_state active node_id m) ≡ (
        if node_id == other
        then (if is_running m.state
            then some m.run_id
            else if is_run (get node_id active) m.run_id && is_over m.state
            then none
            else get node_id active)
        else get other active)
unfolding on_exp_state after_state
on_exp_state-get active node_id m other = elim (Bool-cases (is_running m.state)) [
  | inl starts ↦ rw starts (get-put other node_id m.run_id active)
  | inr not_start ↦ elim (Bool-cases (is_run (get node_id active) m.run_id && is_over m.state)) [
    | inl ends ↦ rw not_start (rw ends (get-discard other node_id active))
    | inr stays ↦ rw not_start (rw stays (same_node active node_id other))
  ]
]

own_run :
    (messages : List StateMessage) (active : Dict ℕ ℕ) (node_id : ℕ)
    → get node_id (on_exp_states active node_id messages)
      ≡ active_after (get node_id active) messages
unfolding on_exp_states
own_run [] active node_id = refl
own_run (m ∷ messages) active node_id =
    own_run messages (on_exp_state active node_id m) node_id
    ∙ ap (λ (run : Option ℕ). active_after run messages)
        (on_exp_state-get active node_id m node_id ∙ rw (==_self node_id) refl)

other_run :
    (messages : List StateMessage) (active : Dict ℕ ℕ) (node_id other : ℕ)
    → (node_id == other) ≡ false
    → get other (on_exp_states active node_id messages) ≡ get other active
unfolding on_exp_states
other_run [] active node_id other apart = refl
other_run (m ∷ messages) active node_id other apart =
    other_run messages (on_exp_state active node_id m) node_id other apart
    ∙ on_exp_state-get active node_id m other
    ∙ rw apart refl

-- One message: the run that is active after it.
abbrev next_run : Option ℕ → StateMessage → Option ℕ
next_run run m =
    if is_running m.state
    then some m.run_id
    else if is_run run m.run_id && is_over m.state
    then none
    else run

told_some :
    (before : Option ℕ) (id : ℕ) (st : ExpState) (run : ℕ)
    → (next_run before (record { run_id = id; state = st }) ≡ some run) ↔ (
        ((id ≡ run) × (st ≡ running))
        ⊎ ((before ≡ some run) × (st ≢ running) × ((id ≢ run) ⊎ ((st ≢ done) × (st ≢ aborted)))))
unfolding is_running is_run is_over
told_some none id idle run = (λ e. ground arith, λ h. ground arith)
told_some (some active) id idle run = (λ e. ground arith, λ h. ground arith)
told_some none id armed run = (λ e. ground arith, λ h. ground arith)
told_some (some active) id armed run = (λ e. ground arith, λ h. ground arith)
told_some none id running run = (λ e. ground arith, λ h. ground arith)
told_some (some active) id running run = (λ e. ground arith, λ h. ground arith)
told_some none id paused run = (λ e. ground arith, λ h. ground arith)
told_some (some active) id paused run = (λ e. ground arith, λ h. ground arith)
told_some none id done run = (λ e. ground arith, λ h. ground arith)
told_some (some active) id done run = (λ e. ground arith, λ h. ground arith)
told_some none id aborted run = (λ e. ground arith, λ h. ground arith)
told_some (some active) id aborted run = (λ e. ground arith, λ h. ground arith)

-- Whether a run is active after messages, by the first of them.
IsActive-first :
    (before : Option ℕ) (run : ℕ) (m : StateMessage) (messages : List StateMessage)
    → IsActive before run (m ∷ messages) ↔ IsActive (next_run before m) run messages
IsActive-first before run m messages = (there, back)
  where
    there : IsActive before run (m ∷ messages) → IsActive (next_run before m) run messages
    there (inl (e, (starts, over, stays))) =
        inl ((told_some before m.run_id m.state run).1 (inr (e, starts, over)), stays)
    there (inr (inl (id, starts, stays))) =
        inl ((told_some before m.run_id m.state run).1 (inl (id, starts)), stays)
    there (inr (inr later)) = inr later

    by_first :
        ((m.run_id ≡ run) × (m.state ≡ running))
          ⊎ ((before ≡ some run)
              × (m.state ≢ running)
              × ((m.run_id ≢ run) ⊎ ((m.state ≢ done) × (m.state ≢ aborted))))
        → StaysActive run messages
        → IsActive before run (m ∷ messages)
    by_first (inl (id, starts)) stays = inr (inl (id, starts, stays))
    by_first (inr (e, starts, over)) stays = inl (e, (starts, over, stays))

    back : IsActive (next_run before m) run messages → IsActive before run (m ∷ messages)
    back (inl (e, stays)) = by_first ((told_some before m.run_id m.state run).0 e) stays
    back (inr later) = inr (inr later)

active_after-IsActive :
    (before : Option ℕ) (run : ℕ) (messages : List StateMessage)
    → (active_after before messages ≡ some run) ↔ IsActive before run messages
active_after-IsActive before run [] = (λ e. inl (e, tt), at_start)
  where
    at_start : IsActive before run [] → before ≡ some run
    at_start (inl (e, stays)) = e
    at_start (inr never) = elim never [ ]
active_after-IsActive before run (m ∷ messages) =
    let (there, back) = active_after-IsActive (next_run before m) run messages in
    let (in_, out) = IsActive-first before run m messages in (λ e. out (there e), λ h. back (in_ h))

-- The run of a node that its samples are recorded with, whatever its state messages say: a run is the
-- active one after them exactly if a message said that it is running, or it was active before them,
-- and since then no message said that a run is running and none that this run is done or aborted.
-- The run of any other node stays as it is.
pub on_exp_states-IsActive :
    (messages : List StateMessage) (active : Dict ℕ ℕ) (node_id other run : ℕ)
    → node_id ≢ other
    → ((get node_id (on_exp_states active node_id messages) ≡ some run)
        ↔ IsActive (get node_id active) run messages)
      × (get other (on_exp_states active node_id messages) ≡ get other active)
on_exp_states-IsActive messages active node_id other run apart =
    let own = own_run messages active node_id in
    let (there, back) = active_after-IsActive (get node_id active) run messages in
    (
      (λ e. there (sym own ∙ e), λ h. own ∙ back h),
      other_run messages active node_id other (ground arith),
    )
