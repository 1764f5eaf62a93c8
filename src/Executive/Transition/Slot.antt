-- ===== src/Executive/Transition/Slot.antt =====
-- The slot over the loop of `process_slots` in beacon/src/executive/transition/mod.rs.
use shasper.Prelude.{
  ℕ, zero, suc, ◌≤◌, ◌<◌, ◌≡◌, ap, inl, inr, arith, ltb, add64, u64_mod, leb→le, Bool-cases, ◌∙◌,
  subst,
}
use shasper.Types.{BeaconState, Checkpoint, Block}
use shasper.Outcome.{ok}
use shasper.Config.{Config, BlsConfig}
use shasper.Justifier.{Justifier}
use shasper.Executive.Epoch.{process_epoch}
use shasper.Executive.Epoch.Justification.{with_justifier}
use shasper.Executive.Epoch.Finality.{justification-Keeps}
use shasper.Executive.Transition.{
  process_slot, advance_slot, slots_loop, process_slots, process_block,
}
use shasper.Executive.Keeps.{Keeps, when-Keeps}
use shasper.Executive.Monad.{gets}
use shasper.Executive.Runs.{runs_bind, runs_gets, runs_modify, runs_require}
use shasper.Executive.Stable.Frame.{frame-IsStable}
use shasper.Executive.Stable.Epochs.{stable_epoch}
use shasper.Executive.Header.{set_latest_header}
use shasper.Executive.Stable.Blocks.{stable_block}

module _ (C : Config) (n : ℕ) where
  AtSlot : ℕ → Justifier Checkpoint → Type 0
  AtSlot k j = k ≡ n

  epoch-Keeps_slot : Keeps (λ s. s.slot ≡ n) (process_epoch C)
  unfolding with_justifier AtSlot
  epoch-Keeps_slot = stable_epoch C (frame-IsStable C AtSlot) (justification-Keeps C (λ s j h. h))

  pub block-Keeps_slot :
      (B : BlsConfig) (block : Block) → Keeps (λ s. s.slot ≡ n) (process_block C B block)
  unfolding AtSlot set_latest_header
  block-Keeps_slot B block = stable_block C (frame-IsStable C AtSlot) B (λ b s h. h) block

module _ (C : Config) where
  pub slot-advance_slot :
      (s t : BeaconState) {u : Unit {0}} → advance_slot C s ≡ (ok u, t) → t.slot ≡ add64 s.slot 1
  unfolding advance_slot process_slot
  slot-advance_slot s t e =
      let (_, s1, e1, r1) = runs_bind _ _ e in
      let (slot, s2, e2, r2) = runs_bind _ _ r1 in
      let (u, s3, e3, r3) = runs_bind _ _ r2 in
      let at1 : s1.slot ≡ s.slot = ap (λ x. x.slot) (runs_modify _ e1) in
      let at2 : s2.slot ≡ s.slot = ap (λ x. x.slot) (runs_gets _ e2).1 ∙ at1 in
      let kept = (when-Keeps _ _ (epoch-Keeps_slot C s.slot)).keeps s2 at2 in
      let at3 : s3.slot ≡ s.slot = subst (λ p. p.1.slot ≡ s.slot) e3 kept in
      ap (λ x. x.slot) (runs_modify _ r3) ∙ ap (λ k. add64 k 1) at3

  loop_reaches :
      (fuel target : ℕ) (s s' : BeaconState) {u : Unit {0}}
      → s.slot ≤ target
      → target < u64_mod
      → slots_loop C fuel target s ≡ (ok u, s')
      → s'.slot ≡ target
  unfolding slots_loop
  loop_reaches zero target s s' h bound e = absurd (cc (ap (λ p. p.0) e))
  loop_reaches (suc fuel) target s s' h bound e = elim (Bool-cases (ltb s.slot target)) [
    | inl before ↦
        let (_, t, et, rest) =
          runs_bind (advance_slot C) (λ _. slots_loop C fuel target) (rw before at e) in
        let next = slot-advance_slot s t et in
        loop_reaches fuel target t s' (ground (arith, next)) bound rest
    | inr there ↦ let same = ap (λ p. p.1.slot) (rw there at e) in ground (arith, same)
  ]

  -- If `process_slots` succeeds, the state was not past the target slot, a number of 64 bits, and it
  -- is at the target slot afterwards.
  pub process_slots-reaches :
      (slot : ℕ) (s s' : BeaconState)
      → slot < u64_mod
      → process_slots C slot s ≡ (ok tt, s')
      → (s.slot ≤ slot) × (s'.slot ≡ slot)
  unfolding process_slots
  process_slots-reaches slot s s' bound e =
      let (current, s1, e1, r1) = runs_bind (gets (λ x. x.slot)) _ e in
      let (_, s2, e2, r2) = runs_bind _ _ r1 in
      let (same, at1) = runs_gets (λ x. x.slot) e1 in
      let (before, at2) = runs_require _ _ e2 in
      let here : s2.slot ≡ s.slot = ap (λ x. x.slot) (at2 ∙ at1) in
      let le = leb→le current slot before in
      (omega (arith, le, same), loop_reaches _ slot s2 s' (omega (arith, le, same, here)) bound r2)
