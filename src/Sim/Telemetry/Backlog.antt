-- ===== src/Sim/Telemetry/Backlog.antt =====
-- transports/sim/node.py, `SimNode._emit_samples`: what happens to samples while the link comes and
-- goes.
use espstation.Common.{
  ◌+◌, if◌then◌else◌, All, ℕ, ◌-◌, ◌≤◌, ◌<◌, ◌≡◌, ◌⊎◌, inl, inr, refl, arith, List, [], ◌∷◌, ◌++◌,
  Bool, true, false, Bool-cases, ltb, length, take, drop, length-drop, take-append-drop,
}
use espstation.Sim.Telemetry.{
  Due, Timed, Telemetry, Store, max_backlog, timed, buffer, emit_samples, batches, drop_link, erase,
}
use espstation.Sim.Telemetry.Batches.{all_samples}

-- What happens to a node's samples: some are due at a time, the link fails or comes back, or the
-- station erases what waits.
pub data Step (V : Type 0) : Type 0 where
  due_at : ℕ → List (Due V) → Step V
  link : Bool → Step V
  erase_all : Step V

module _ {V : Type 0} where
  unfoldable pub step : (ℕ → V → Bool) → Store V → Step V → Store V × List (Telemetry V) × Bool
  step packs store (due_at ts due) = emit_samples packs store ts due
  step packs store (link drop_) = (drop_link store drop_, [], false)
  step packs store erase_all = (erase store, [], false)

  -- Steps up to one that raises, which ends the node's main loop.
  unfoldable pub run_steps :
      (ℕ → V → Bool) → Store V → List (Step V) → Store V × List (Telemetry V) × Bool
  run_steps packs store [] = (store, [], false)
  run_steps packs store (s ∷ steps) =
      let (store, sent, raised) = step packs store s in
      let (after, later, failed) = run_steps packs store steps in
      if raised then (store, sent, true) else (after, sent ++ later, failed)

  -- The samples that steps make due, with their times.
  abbrev pub made : List (Step V) → List (Timed V)
  made [] = []
  made (due_at ts due ∷ steps) = timed ts due ++ made steps
  made (link drop_ ∷ steps) = made steps
  made (erase_all ∷ steps) = made steps

  -- A sample that is due and packs.
  abbrev pub Packs : (ℕ → V → Bool) → Due V → Type 0
  Packs packs d = (d.ch < 0x100) × (d.enc < 0x100) × (packs d.enc d.value ≡ true)

  -- Steps that go well, from a time `since` on, where what waits is not older than `start` and the link
  -- is down or not: they come in the order of time, in the first 2^32 ms, and none erases; every sample
  -- packs; and samples become due at most 65535 ms after the oldest one that may still wait, which
  -- after samples have become due with the link up is one of these.
  abbrev pub IsOrderly : (ℕ → V → Bool) → ℕ → ℕ → Bool → List (Step V) → Type 0
  IsOrderly packs since start down [] = Unit
  IsOrderly packs since start down (due_at ts due ∷ steps) =
      (since ≤ ts)
      × (ts ≤ start + 0xffff)
      × (ts < 0x100000000)
      × All (Packs packs) due
      × IsOrderly packs ts (if down then start else ts) down steps
  IsOrderly packs since start down (link drop_ ∷ steps) = IsOrderly packs since start drop_ steps
  IsOrderly packs since start down (erase_all ∷ steps) = ⊥

  -- Samples in the order of time and no later than `until`.
  abbrev pub IsUntil : ℕ → List (Timed V) → ℕ → Type 0
  IsUntil since [] until = since ≤ until
  IsUntil since (e ∷ entries) until = (since ≤ e.ts_ms) × IsUntil e.ts_ms entries until

  IsUntil-bounds :
      (since until : ℕ) (entries : List (Timed V)) → IsUntil since entries until → since ≤ until
  IsUntil-bounds since until [] h = h
  IsUntil-bounds since until (e ∷ entries) (h, hs) =
      omega (arith, IsUntil-bounds e.ts_ms until entries hs)

  over_lt : (all : List (Timed V)) → ltb max_backlog (length all) ≡ true → max_backlog < length all
  over_lt all over = ground arith

  fits_le : (all : List (Timed V)) → ltb max_backlog (length all) ≡ false → length all ≤ max_backlog
  fits_le all over = ground arith

  -- What the backlog keeps: the newest of the waiting and the new samples, at most 2000 of them, and
  -- all of them if they are no more than that.
  pub buffer-newest :
      (store : Store V) (entries : List (Timed V))
      → (oldest : List (Timed V)) × (oldest ++ (buffer store entries).backlog
          ≡ store.backlog ++ entries)
        × (length (buffer store entries).backlog ≤ max_backlog)
        × ((oldest ≡ []) ⊎ (length (buffer store entries).backlog ≡ max_backlog))
  unfolding buffer
  buffer-newest store entries =
      let all : List (Timed V) = store.backlog ++ entries in
      elim (Bool-cases (ltb max_backlog (length all))) [
        | inl over ↦
            let n : ℕ = length all - max_backlog in
            let kept : length (drop n all) ≡ max_backlog =
              omega (arith, length-drop n all, over_lt all over) in
            rw over (take n all, take-append-drop n all, omega (arith, kept), inr kept)
        | inr fits ↦ rw fits ([], refl, fits_le all fits, inl refl)
      ]

  -- An emission over a link that is up, if nothing raises.
  abbrev forwarded : Store V → List (Timed V) → Store V × List (Telemetry V)
  forwarded store entries = (
    record store {
      backlog = [];
      link_was_lost_pending = false;
      run_samples = if store.running then store.run_samples + length entries else store.run_samples;
    },
    batches true false store.backlog ++ batches false store.link_was_lost_pending entries,
  )

  -- What an emission comes to if nothing raises.
  abbrev emitted : Store V → ℕ → List (Due V) → Store V × List (Telemetry V)
  emitted store ts due =
      if store.link_dropped
      then (buffer store (timed ts due), [])
      else forwarded store (timed ts due)

  -- What one emission keeps: nothing is lost or moved, and what waits is no later than now.
  abbrev Conserved : Store V → ℕ → List (Due V) → Store V × List (Telemetry V) → Type 0
  Conserved store ts due result =
      (all_samples result.1 ++ result.0.backlog ≡ store.backlog ++ timed ts due)
      × IsUntil 0 result.0.backlog ts
      × (length result.0.backlog ≤ length (store.backlog ++ timed ts due))
