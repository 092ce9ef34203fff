-- ===== src/Sim/Digital/Handshakes.antt =====
-- transports/sim/node.py, `SimNode._dio_handshake`: the state of the link over many handshakes.
use espstation.Common.{
  ℕ, suc, ◌+◌, ◌<◌, ◌≡◌, ◌≢◌, refl, ap, sym, ◌∙◌, arith, List, [], ◌∷◌, ◌++◌, Option, ap₂, none,
  some, true, false, not, ◌&&◌, leb, ltb, if◌then◌else◌, Bool-cases, inl, inr,
}
use espstation.Sim.Digital.{
  DioRuntime, LinkState, init, up, lost, Output, event, rtt_sample, link_up, link_lost,
  is_lost_state, is_up_state, timed_out, answered, conclude,
}

-- The outcomes of handshakes, one after the other: `none` where a leg was lost.
unfoldable pub conclude_all : DioRuntime → List (Option ℕ) → DioRuntime × List Output
conclude_all dio [] = (dio, [])
conclude_all dio (outcome ∷ outcomes) =
    let (dio, out) = conclude dio outcome in
    let (dio, later) = conclude_all dio outcomes in (dio, out ++ later)

-- How many outcomes at the end of a list are losses, where `n` losses stand before it.
abbrev pub losses_at_end : ℕ → List (Option ℕ) → ℕ
losses_at_end n [] = n
losses_at_end n (none ∷ outcomes) = losses_at_end (n + 1) outcomes
losses_at_end n (some rtt ∷ outcomes) = losses_at_end 0 outcomes

abbrev pub answers : List (Option ℕ) → ℕ
answers [] = 0
answers (none ∷ outcomes) = answers outcomes
answers (some rtt ∷ outcomes) = suc (answers outcomes)

abbrev pub losses : List (Option ℕ) → ℕ
losses [] = 0
losses (none ∷ outcomes) = suc (losses outcomes)
losses (some rtt ∷ outcomes) = losses outcomes

-- The state that the numbers of a link stand for: lost after so many losses without an answer, else
-- up if there ever was an answer.
abbrev pub state_for : ℕ → ℕ → ℕ → LinkState
state_for limit timeouts oks = if leb limit timeouts then lost else if ltb 0 oks then up else init

-- A link whose state agrees with its run of losses and with `n` answers so far.
abbrev pub IsTracked : DioRuntime → ℕ → Type 0
IsTracked dio n = dio.link_state ≡ state_for dio.config.lost_after_timeouts dio.consec_timeouts n

timed_out-state :
    (dio : DioRuntime) (n : ℕ)
    → 0 < dio.config.lost_after_timeouts
    → IsTracked dio n
    → IsTracked (timed_out dio).0 n
unfolding timed_out is_lost_state
timed_out-state dio n limited tracked = ground arith

answered-state :
    (dio : DioRuntime) (rtt n : ℕ)
    → 0 < dio.config.lost_after_timeouts
    → IsTracked dio n
    → IsTracked (answered dio rtt).0 (suc n)
unfolding answered is_up_state
answered-state dio rtt n limited tracked = ground arith

-- What one failed handshake counts.
timed_out-counts :
    (dio : DioRuntime)
    → ((timed_out dio).0.config ≡ dio.config)
      × ((timed_out dio).0.consec_timeouts ≡ dio.consec_timeouts + 1)
      × ((timed_out dio).0.handshakes_ok ≡ dio.handshakes_ok)
      × ((timed_out dio).0.handshakes_timeout ≡ dio.handshakes_timeout + 1)
unfolding timed_out
timed_out-counts dio = ground arith

answered-counts :
    (dio : DioRuntime) (rtt : ℕ)
    → ((answered dio rtt).0.config ≡ dio.config)
      × ((answered dio rtt).0.consec_timeouts ≡ 0)
      × ((answered dio rtt).0.handshakes_ok ≡ dio.handshakes_ok + 1)
      × ((answered dio rtt).0.handshakes_timeout ≡ dio.handshakes_timeout)
unfolding answered
answered-counts dio rtt = ground arith

conclude_all-counts :
    (dio : DioRuntime) (outcomes : List (Option ℕ)) (n : ℕ)
    → 0 < dio.config.lost_after_timeouts
    → IsTracked dio n
    → ((conclude_all dio outcomes).0.link_state
        ≡ state_for dio.config.lost_after_timeouts
            (losses_at_end dio.consec_timeouts outcomes)
            (n + answers outcomes))
      × ((conclude_all dio outcomes).0.consec_timeouts ≡ losses_at_end dio.consec_timeouts outcomes)
      × ((conclude_all dio outcomes).0.handshakes_ok ≡ dio.handshakes_ok + answers outcomes)
      × ((conclude_all dio outcomes).0.handshakes_timeout
          ≡ dio.handshakes_timeout + losses outcomes)
unfolding conclude_all conclude
conclude_all-counts dio [] n limited tracked = (
  tracked ∙ ap (state_for dio.config.lost_after_timeouts dio.consec_timeouts) (omega arith),
  refl,
  omega arith,
  omega arith,
)
conclude_all-counts dio (none ∷ outcomes) n limited tracked =
    let (config, run_, oks, bad) = timed_out-counts dio in
    let (state, run', oks', bad') =
      conclude_all-counts (timed_out dio).0 outcomes n (rw config limited)
        (timed_out-state dio n limited tracked) in
    (state ∙ rw (config, run_) refl, run' ∙ rw run_ refl, omega arith, omega arith)
conclude_all-counts dio (some rtt ∷ outcomes) n limited tracked =
    let (config, run_, oks, bad) = answered-counts dio rtt in
    let (state, run', oks', bad') =
      conclude_all-counts (answered dio rtt).0 outcomes (suc n) (rw config limited)
        (answered-state dio rtt n limited tracked) in
    let more : suc n + answers outcomes ≡ n + suc (answers outcomes) = omega arith in
    (state ∙ rw (config, run_) (rw more refl), run' ∙ rw run_ refl, omega arith, omega arith)

-- The state of the link after any outcomes of handshakes, from a link that has just booted (state
-- `init`, no run of losses) and whose limit of losses is above 0: it is `lost` exactly if the last
-- outcomes are losses, as many as the limit or more, and else `up` if any handshake was answered and
-- `init` if none was. The
-- run of losses and the two counters have counted the outcomes.
pub conclude_all-state :
    (dio : DioRuntime) (outcomes : List (Option ℕ))
    → 0 < dio.config.lost_after_timeouts
    → dio.link_state ≡ init
    → dio.consec_timeouts ≡ 0
    → ((conclude_all dio outcomes).0.link_state
        ≡ state_for dio.config.lost_after_timeouts (losses_at_end 0 outcomes) (answers outcomes))
      × ((conclude_all dio outcomes).0.consec_timeouts ≡ losses_at_end 0 outcomes)
      × ((conclude_all dio outcomes).0.handshakes_ok ≡ dio.handshakes_ok + answers outcomes)
      × ((conclude_all dio outcomes).0.handshakes_timeout
          ≡ dio.handshakes_timeout + losses outcomes)
conclude_all-state dio outcomes limited booted calm =
    let (state, run_, oks, bad) = conclude_all-counts dio outcomes 0 limited (ground arith) in
    let start : losses_at_end dio.consec_timeouts outcomes ≡ losses_at_end 0 outcomes =
      ap (λ (n : ℕ). losses_at_end n outcomes) calm in
    let all : 0 + answers outcomes ≡ answers outcomes = omega arith in
    (state ∙ ap₂ (state_for dio.config.lost_after_timeouts) start all, run_ ∙ start, oks, bad)

-- What an output of a handshake says: the state before it, and the state after it.
abbrev pub Announces : Output → LinkState → LinkState → Type 0
Announces (rtt_sample rtt) before after = (before ≡ up) × (after ≡ up)
Announces (event (link_up rtt timeouts) suppressed) before after = (before ≢ up) × (after ≡ up)
Announces (event (link_lost timeouts samples) suppressed) before after =
    (before ≢ lost) × (after ≡ lost)
Announces (event _ suppressed) before after = ⊥

-- Outputs that announce the states from one to another.
abbrev pub IsHistory : LinkState → List Output → LinkState → Type 0
IsHistory before [] after = before ≡ after
IsHistory before (out ∷ outs) after =
    (next : LinkState) × Announces out before next × IsHistory next outs after

IsHistory-append :
    (s t u : LinkState) (xs ys : List Output)
    → IsHistory s xs t
    → IsHistory t ys u
    → IsHistory s (xs ++ ys) u
IsHistory-append s t u [] ys h k = rw h k
IsHistory-append s t u (x ∷ xs) ys (next, one, h) k =
    (next, one, IsHistory-append next t u xs ys h k)

not_lost : (s : LinkState) → is_lost_state s ≡ false → s ≢ lost
unfolding is_lost_state
not_lost s e p = ground arith

not_up : (s : LinkState) → is_up_state s ≡ false → s ≢ up
unfolding is_up_state
not_up s e p = ground arith

is_up : (s : LinkState) → is_up_state s ≡ true → s ≡ up
unfolding is_up_state
is_up init e = cc
is_up lost e = cc
is_up up e = refl

timed_out-IsHistory :
    (dio : DioRuntime) → IsHistory dio.link_state (timed_out dio).1 (timed_out dio).0.link_state
unfolding timed_out
timed_out-IsHistory dio =
    elim (Bool-cases (
      leb dio.config.lost_after_timeouts (dio.consec_timeouts + 1)
      && not (is_lost_state dio.link_state))) [
        | inl e ↦ rw e (lost, (not_lost dio.link_state (ground arith), refl), refl)
        | inr e ↦ rw e refl
      ]

answered-IsHistory :
    (dio : DioRuntime) (rtt : ℕ)
    → IsHistory dio.link_state (answered dio rtt).1 (answered dio rtt).0.link_state
unfolding answered
answered-IsHistory dio rtt = elim (Bool-cases (is_up_state dio.link_state)) [
  | inl e ↦
      let here : dio.link_state ≡ up = is_up dio.link_state e in rw e (up, (here, refl), sym here)
  | inr e ↦ rw e (up, (not_up dio.link_state e, refl), (up, (refl, refl), refl))
]

-- What the station hears of handshakes is the history of the link's state, from the state before
-- them to the state after: `link.up` comes only when the link was not up, `link.lost` only when it
-- was not lost, a round-trip time only while it is up, and no change of the state goes unsaid.
pub conclude_all-IsHistory :
    (dio : DioRuntime) (outcomes : List (Option ℕ))
    → IsHistory dio.link_state
        (conclude_all dio outcomes).1
        (conclude_all dio outcomes).0.link_state
unfolding conclude_all conclude
conclude_all-IsHistory dio [] = refl
conclude_all-IsHistory dio (none ∷ outcomes) =
    IsHistory-append dio.link_state (timed_out dio).0.link_state _ (timed_out dio).1 _
      (timed_out-IsHistory dio) (conclude_all-IsHistory (timed_out dio).0 outcomes)
conclude_all-IsHistory dio (some rtt ∷ outcomes) =
    IsHistory-append dio.link_state (answered dio rtt).0.link_state _ (answered dio rtt).1 _
      (answered-IsHistory dio rtt) (conclude_all-IsHistory (answered dio rtt).0 outcomes)
