-- ===== src/Executive/Transition/Finality.antt =====
-- Finality over the loop of `process_slots` in beacon/src/executive/transition/mod.rs.
use shasper.Prelude.{
  ℕ, zero, suc, ◌+◌, ◌/◌, ◌%◌, ◌≤◌, ◌<◌, ◌≡◌, refl, ap, sym, subst, ◌∙◌, Bool, true, false, inl,
  inr, max, arith, ltb, leb, leb→le, ◌-◌, add64, u64_mod, Bool-cases, ◌==◌,
}
use shasper.Types.{BeaconState}
use shasper.Outcome.{ok, slot_out_of_range}
use shasper.Config.{Config}
use shasper.Justifier.Order.{IsOrdered, process-IsOrdered}
use shasper.Executive.Accessors.{current_epoch, previous_epoch}
use shasper.Executive.Epoch.{process_epoch}
use shasper.Executive.Epoch.Justification.{
  justifier_of, justified_state, with_justifier, process_justification_and_finalization,
}
use shasper.Executive.Epoch.Finality.{Justifies, justified_state-Justifies}
use shasper.Executive.Transition.{process_slot, advance_slot, slots_loop, process_slots}
use shasper.Executive.Monad.{require, gets, pure, when, modify, ◌>>=◌, commit}
use shasper.Executive.Keeps.{bind-Keeps}
use shasper.Executive.Runs.{runs_bind, runs_modify, runs_reads, runs_require}
use shasper.Executive.Stable.Frame.{frame-IsStable}
use shasper.Executive.Stable.Epochs.{
  stable_rewards, stable_registry, stable_slashings, stable_final,
}
use shasper.Executive.Transition.Slot.{slot-advance_slot}

next_epoch_le : (n d : ℕ) → 0 < d → n / d ≤ (n + 1) / d
next_epoch_le n d h = grind arith

next_epoch_lt : (n d : ℕ) → 0 < d → (n + 1) % d ≡ 0 → n / d + 1 ≤ (n + 1) / d
next_epoch_lt n d h e = grind arith

-- The order of the checkpoints of a state with a slot to process.
abbrev pub InOrder : Config → BeaconState → Type 0
InOrder C s = IsOrdered (λ c. c.epoch) (justifier_of s) (max 1 (s.slot / C.slots_per_epoch))

module _ (C : Config) where
  -- An epoch that is processed leaves the checkpoints as justification made them.
  process_epoch_runs :
      (s s' : BeaconState) {u : Unit {0}}
      → process_epoch C s ≡ (ok u, s')
      → (t : BeaconState) × (justified_state C s ≡ ok t)
        × ((s'.slot ≡ t.slot) × (justifier_of s' ≡ justifier_of t))
  unfolding process_epoch process_justification_and_finalization commit
  process_epoch_runs s s' e =
      let (_, s1, e1, r1) = runs_bind _ _ e in
      let (t, s2, e2, r2) = runs_bind _ _ e1 in
      let ran = (runs_reads _ e2).0 in
      let at1 : s1 ≡ t = runs_modify _ r2 in
      let st = frame-IsStable C (λ n j. (n ≡ s1.slot) × (j ≡ justifier_of s1)) in
      let rest = bind-Keeps _ _ (stable_rewards C st) λ _.
        bind-Keeps _ _ (stable_registry C st)
          λ _. bind-Keeps _ _ (stable_slashings C st) λ _. stable_final C st in
      let kept = rest.keeps s1 (refl, refl) in
      let kept' =
        subst (λ p. (p.1.slot ≡ s1.slot) × (justifier_of p.1 ≡ justifier_of s1)) r1 kept in
      (t, ran, (kept'.0 ∙ ap (λ x. x.slot) at1, kept'.1 ∙ ap justifier_of at1))

  module _ (spe : 0 < C.slots_per_epoch) (genesis : C.genesis_epoch + 1 < u64_mod) where
    previous_epoch_lem :
        (s : BeaconState)
        → leb (current_epoch C s) (add64 C.genesis_epoch 1) ≡ false
        → (previous_epoch C s + 1 ≡ current_epoch C s) × (2 ≤ current_epoch C s)
    unfolding previous_epoch
    previous_epoch_lem s late = ground arith

    -- What an epoch does to the order, and to the finalized epoch.
    justified_state-IsOrdered :
        (s t : BeaconState)
        → InOrder C s
        → justified_state C s ≡ ok t
        → IsOrdered (λ c. c.epoch) (justifier_of t) (s.slot / C.slots_per_epoch + 1)
          × (s.finalized_checkpoint.epoch ≤ t.finalized_checkpoint.epoch)
          × (t.slot ≡ s.slot)
    unfolding Justifies with_justifier justifier_of current_epoch
    justified_state-IsOrdered s t h e = elim (justified_state-Justifies C s t e) [
      | inl same ↦ rw same (ground arith)
      | inr (late, (previous, current, j, ran, same)) ↦
          let (step, two) = previous_epoch_lem s late in
          let ordered : IsOrdered (λ c. c.epoch) (justifier_of s) (s.slot / C.slots_per_epoch) =
            ground (arith, two) in
          let (kept, le) =
            process-IsOrdered (λ c. c.epoch) (justifier_of s) j _ _ _ ordered step ran in
          rw same (kept, le, refl)
    ]

    -- One epoch, where the slot after it starts the next one.
    epoch-InOrder :
        (s t : BeaconState) {u : Unit {0}}
        → InOrder C s
        → add64 s.slot 1 % C.slots_per_epoch ≡ 0
        → s.slot + 1 < u64_mod
        → process_epoch C s ≡ (ok u, t)
        → InOrder C (record t { slot = add64 t.slot 1 })
          × (s.finalized_checkpoint.epoch ≤ t.finalized_checkpoint.epoch)
    unfolding justifier_of
    epoch-InOrder s t h starts bound e =
        let (m, ran, (at, same)) = process_epoch_runs s t e in
        let (kept, le, at') = justified_state-IsOrdered s m h ran in
        let later = next_epoch_lt s.slot C.slots_per_epoch spe (ground (arith, starts)) in
        let final = ap (λ j. j.finalized_checkpoint.epoch) same in
        let previous = ap (λ j. j.previous_justified_checkpoint.epoch) same in
        let current = ap (λ j. j.current_justified_checkpoint.epoch) same in
        let there : add64 t.slot 1 ≡ s.slot + 1 = omega (arith, at, at') in
        (rw there (omega (arith, kept, later, final, previous, current)), omega (arith, le, final))

    -- The middle of `advance_slot`, where the next slot may start an epoch.
    when-InOrder :
        (b : Bool) (s t : BeaconState) {u : Unit {0}}
        → (add64 s.slot 1 % C.slots_per_epoch == 0) ≡ b
        → InOrder C s
        → s.slot + 1 < u64_mod
        → when b (process_epoch C) s ≡ (ok u, t)
        → InOrder C (record t { slot = add64 t.slot 1 })
          × (s.finalized_checkpoint.epoch ≤ t.finalized_checkpoint.epoch)
    unfolding when pure justifier_of
    when-InOrder true s t starts h bound e = epoch-InOrder s t h (ground (arith, starts)) bound e
    when-InOrder false s t within h bound e =
        let at : t ≡ s = sym (ap (λ p. p.1) e) in
        let later = next_epoch_le s.slot C.slots_per_epoch spe in
        let there : add64 s.slot 1 ≡ s.slot + 1 = omega arith in
        rw at (rw there (omega (arith, later)))

    advance_slot-InOrder :
        (s t : BeaconState) {u : Unit {0}}
        → InOrder C s
        → s.slot + 1 < u64_mod
        → advance_slot C s ≡ (ok u, t)
        → InOrder C t × (s.finalized_checkpoint.epoch ≤ t.finalized_checkpoint.epoch)
    unfolding advance_slot process_slot justifier_of ◌>>=◌ modify gets
    advance_slot-InOrder s t h bound e =
        let (_, m, ran, after) =
          runs_bind (when (add64 s.slot 1 % C.slots_per_epoch == 0) (process_epoch C))
            (λ _. modify λ x. record x { slot = add64 x.slot 1 }) {s = process_slot C s} e in
        let at = runs_modify (λ x. record x { slot = add64 x.slot 1 }) after in
        rw at (when-InOrder _ (process_slot C s) m refl h bound ran)

    loop-InOrder :
        (fuel target : ℕ) (s s' : BeaconState) {u : Unit {0}}
        → InOrder C s
        → s.slot ≤ target
        → target < u64_mod
        → slots_loop C fuel target s ≡ (ok u, s')
        → InOrder C s' × (s.finalized_checkpoint.epoch ≤ s'.finalized_checkpoint.epoch)
    unfolding slots_loop
    loop-InOrder zero target s s' h le bound e = absurd (cc (ap (λ p. p.0) e))
    loop-InOrder (suc fuel) target s s' h le bound e = elim (Bool-cases (ltb s.slot target)) [
      | inl before ↦
          let (_, t, et, rest) =
            runs_bind (advance_slot C) (λ _. slots_loop C fuel target) (rw before at e) in
          let next = slot-advance_slot C s t et in
          let (h', grows) = advance_slot-InOrder s t h (ground arith) et in
          let (h'', grows') = loop-InOrder fuel target t s' h' (ground (arith, next)) bound rest in
          (h'', omega (arith, grows, grows'))
      | inr there ↦
          let same : s ≡ s' = ap (λ p. p.1) (rw there at e) in
          subst (λ x. InOrder C x × (s.finalized_checkpoint.epoch ≤ x.finalized_checkpoint.epoch))
            same (h, omega arith)
    ]

    -- Where the checkpoints of a state are in order (the finalized one no later than the previous
    -- justified one, that no later than the current one, and that before the epoch of the slot, or
    -- all at 0), a run of `process_slots` that succeeds leaves them in order for the slot it reached,
    -- and the finalized epoch is no lower than before. The epochs must have slots, and the genesis
    -- epoch and the target slot must be below the largest number of 64 bits.
    pub process_slots-InOrder :
        (slot : ℕ) (s s' : BeaconState)
        → slot < u64_mod
        → InOrder C s
        → process_slots C slot s ≡ (ok tt, s')
        → InOrder C s' × (s.finalized_checkpoint.epoch ≤ s'.finalized_checkpoint.epoch)
    unfolding process_slots ◌>>=◌ gets
    process_slots-InOrder slot s s' bound h e =
        let (_, s2, e2, r2) =
          runs_bind (require (leb s.slot slot) slot_out_of_range)
            (λ _. slots_loop C (suc (slot - s.slot)) slot) {s = s} e in
        let (before, at) = runs_require (leb s.slot slot) slot_out_of_range e2 in
        let r : slots_loop C (suc (slot - s.slot)) slot s ≡ (ok tt, s') =
          subst (λ x. slots_loop C (suc (slot - s.slot)) slot x ≡ (ok tt, s')) at r2 in
        loop-InOrder _ slot s s' h (leb→le s.slot slot before) bound r
