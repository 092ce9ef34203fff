-- ===== src/Sim/Experiment/Bursts.antt =====
-- transports/sim/node.py, the action `burst` of a trigger and `_evaluate_burst_expiry`: a burst that
-- lasts longer than its run.
use espstation.Common.{
  ℕ, ◌+◌, ◌*◌, ◌≤◌, ◌≡◌, refl, ap, ◌∙◌, arith, List, [], ◌∷◌, Option, none, some, Bool, true, false,
  leb, ◌||◌, Bool-cases, inl, inr,
}
use espstation.Common.Dict.{Dict, Key, get, discard, has, get-put, get-discard}
use espstation.Sim.Experiment.{Channel, Node, burst, finish_run, apply_channel_overrides}
use espstation.Sim.Experiment.Triggers.{
  begin_burst, burst_ms, do_action, expire_saved, expire_burst, expired, expire_bursts,
  evaluate_burst_expiry,
}
use espstation.Sim.Experiment.Rates.{on_some, as_declared, get-modify, finish_run-reverts}

-- What the rate of a burst that has ended is set to.
abbrev restored : Channel → Option ℕ → Channel
restored ch none = ch
restored ch (some rate) = record ch { rate = rate }

module _ {K : Type 0} ⦃key : Key K⦄ where
  has-get : (k : K) (d : Dict K ℕ) → get k d ≡ none → has k d ≡ false
  unfolding get has
  has-get k [] e = refl
  has-get k ((j, v) ∷ d) e = elim (Bool-cases (key.same j k)) [
    | inl same ↦ absurd (cc (rw same at e))
    | inr other ↦ rw other (has-get k d (rw other at e))
  ]

  unfoldable is_in : K → List K → Bool
  is_in k [] = false
  is_in k (j ∷ ks) = key.same j k || is_in k ks

  -- The key is one of those whose burst is over.
  expired-is_in :
      (k : K) (until now : ℕ) (d : Dict K ℕ)
      → get k d ≡ some until
      → until ≤ now
      → is_in k (expired d now) ≡ true
  unfolding get expired is_in
  expired-is_in k until now [] e over = absurd (cc)
  expired-is_in k until now ((j, t) ∷ d) e over = elim (Bool-cases (key.same j k)) [
    | inl same ↦
        let here : some t ≡ some until = rw same at e in
        let due : leb t now ≡ true = ground arith in rw due (rw same refl)
    | inr other ↦
        let later = expired-is_in k until now d (rw other at e) over in
        elim (Bool-cases (leb t now)) [
          | inl due ↦ rw due (rw other later)
          | inr waits ↦ rw waits later
        ]
  ]

  restored_channels :
      (saved : Option ℕ) (node : Node K) (j k : K) (ch : Channel)
      → get k node.channels ≡ some ch
      → key.same j k ≡ true
      → get k (expire_saved (some ch) saved node j).channels ≡ some (restored ch saved)
  unfolding expire_saved
  restored_channels none node j k ch there same = there
  restored_channels (some rate) node j k ch there same =
      get-modify k j (λ (c : Channel). record c { rate = rate }) node.channels
      ∙ rw same (ap (on_some (λ (c : Channel). record c { rate = rate })) there)

  restored_saved :
      (saved : Option ℕ) (node : Node K) (k : K) (ch : Channel)
      → get k node.burst_saved ≡ saved
      → get k (expire_saved (some ch) saved node k).burst_saved ≡ none
  unfolding expire_saved
  restored_saved none node k ch e = e
  restored_saved (some rate) node k ch e =
      get-discard k k node.burst_saved ∙ rw ((key.same_iff k k).1 refl) refl

  -- The burst of the key is over: its channel gets the saved rate, if there is one, and then none is
  -- saved.
  expire_burst-own :
      (node : Node K) (k : K) (ch : Channel)
      → get k node.channels ≡ some ch
      → (get k (expire_burst node k).channels ≡ some (restored ch (get k node.burst_saved)))
        × (get k (expire_burst node k).burst_saved ≡ none)
  unfolding expire_burst
  expire_burst-own node k ch there =
      let forgot : Node K = record node { burst_until = discard k node.burst_until } in
      rw there (
        restored_channels (get k node.burst_saved) forgot k k ch there ((key.same_iff k k).1 refl),
        restored_saved (get k node.burst_saved) forgot k ch refl,
      )

  others_saved :
      (ch : Option Channel) (saved : Option ℕ) (node : Node K) (j k : K)
      → key.same j k ≡ false
      → (get k (expire_saved ch saved node j).channels ≡ get k node.channels)
        × (get k (expire_saved ch saved node j).burst_saved ≡ get k node.burst_saved)
  unfolding expire_saved
  others_saved none saved node j k apart = (refl, refl)
  others_saved (some ch) none node j k apart = (refl, refl)
  others_saved (some ch) (some rate) node j k apart = (
    get-modify k j (λ (c : Channel). record c { rate = rate }) node.channels ∙ rw apart refl,
    get-discard k j node.burst_saved ∙ rw apart refl,
  )

  expire_burst-other :
      (node : Node K) (j k : K)
      → key.same j k ≡ false
      → (get k (expire_burst node j).channels ≡ get k node.channels)
        × (get k (expire_burst node j).burst_saved ≡ get k node.burst_saved)
  unfolding expire_burst
  expire_burst-other node j k apart =
      others_saved (get j node.channels) (get j node.burst_saved)
        (record node { burst_until = discard j node.burst_until }) j k apart

  -- Without a saved rate the channel stays as it is.
  expire_bursts-none :
      (ks : List K) (node : Node K) (k : K) (ch : Channel)
      → get k node.channels ≡ some ch
      → get k node.burst_saved ≡ none
      → get k (expire_bursts node ks).channels ≡ some ch
  unfolding expire_bursts
  expire_bursts-none [] node k ch there e = there
  expire_bursts-none (j ∷ ks) node k ch there e = elim (Bool-cases (key.same j k)) [
    | inl same ↦
        let own : j ≡ k = (key.same_iff j k).0 same in
        let (channel, saved) = expire_burst-own node k ch there in
        ap (λ (i : K). get k (expire_bursts (expire_burst node i) ks).channels) own
        ∙ expire_bursts-none ks (expire_burst node k) k ch
            (channel ∙ ap (λ (o : Option ℕ). some (restored ch o)) e) saved
    | inr apart ↦
        let (channel, saved) = expire_burst-other node j k apart in
        expire_bursts-none ks (expire_burst node j) k ch (channel ∙ there) (saved ∙ e)
  ]

  expire_bursts-saved :
      (ks : List K) (node : Node K) (k : K) (ch : Channel) (rate : ℕ)
      → get k node.channels ≡ some ch
      → get k node.burst_saved ≡ some rate
      → is_in k ks ≡ true
      → get k (expire_bursts node ks).channels ≡ some (record ch { rate = rate })
  unfolding expire_bursts is_in
  expire_bursts-saved [] node k ch rate there e here = absurd (cc)
  expire_bursts-saved (j ∷ ks) node k ch rate there e here = elim (Bool-cases (key.same j k)) [
    | inl same ↦
        let own : j ≡ k = (key.same_iff j k).0 same in
        let (channel, saved) = expire_burst-own node k ch there in
        ap (λ (i : K). get k (expire_bursts (expire_burst node i) ks).channels) own
        ∙ expire_bursts-none ks (expire_burst node k) k (record ch { rate = rate })
            (channel ∙ ap (λ (o : Option ℕ). some (restored ch o)) e) saved
    | inr apart ↦
        let (channel, saved) = expire_burst-other node j k apart in
        expire_bursts-saved ks (expire_burst node j) k ch rate (channel ∙ there) (saved ∙ e)
          (rw apart at here)
  ]

  -- What a node remembers of a burst that begins where none is under way.
  burst_begun :
      (node : Node K) (k : K) (ch : Channel) (rate : ℕ) (ms : Option ℕ) (t : ℕ)
      → get k node.channels ≡ some ch
      → get k node.burst_saved ≡ none
      → (get k (do_action node (burst k (some rate) ms) t).0.channels
          ≡ some (record ch { rate = rate }))
        × (get k (do_action node (burst k (some rate) ms) t).0.burst_saved ≡ some ch.rate)
        × (get k (do_action node (burst k (some rate) ms) t).0.burst_until
            ≡ some (t + burst_ms ms * 1000))
  unfolding do_action begin_burst
  burst_begun node k ch rate ms t there calm =
      let self : key.same k k ≡ true = (key.same_iff k k).1 refl in
      rw there (
        rw (has-get k node.burst_saved calm) (
          get-modify k k (λ (c : Channel). record c { rate = rate }) node.channels
              ∙ rw self (ap (on_some (λ (c : Channel). record c { rate = rate })) there),
          get-put k k ch.rate node.burst_saved ∙ rw self refl,
          get-put k k (t + burst_ms ms * 1000) node.burst_until ∙ rw self refl,
        ))

  -- A burst outlives its run. A trigger's burst begins on a channel that has no other burst under way,
  -- and then the run ends: the channel has its own rate. At the first expiry check from the burst's end
  -- on (1000 ms after its beginning, where it names no duration or 0) the channel gets the rate that
  -- it had when the burst began, which is the rate of the run that is over.
  pub evaluate_burst_expiry-after_run :
      (node : Node K) (k : K) (ch : Channel) (rate : ℕ) (ms : Option ℕ) (t now_us : ℕ)
      → get k node.channels ≡ some ch
      → get k node.burst_saved ≡ none
      → t + burst_ms ms * 1000 ≤ now_us
      → let ended : Node K = finish_run (do_action node (burst k (some rate) ms) t).0 in
        (get k ended.channels ≡ some (as_declared ch))
        × (get k (evaluate_burst_expiry ended now_us).channels
            ≡ some (record (as_declared ch) { rate = ch.rate }))
  unfolding evaluate_burst_expiry finish_run apply_channel_overrides
  evaluate_burst_expiry-after_run node k ch rate ms t now_us there calm over =
      let begun : Node K = (do_action node (burst k (some rate) ms) t).0 in
      let (channel, saved, until) = burst_begun node k ch rate ms t there calm in
      let own : get k (finish_run begun).channels ≡ some (as_declared ch) =
        finish_run-reverts begun k ∙ ap (on_some as_declared) channel in
      (
        own,
        expire_bursts-saved (expired begun.burst_until now_us) (finish_run begun) k (as_declared ch)
            ch.rate own saved
            (expired-is_in k (t + burst_ms ms * 1000) now_us begun.burst_until until over),
      )
