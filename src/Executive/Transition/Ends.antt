-- ===== src/Executive/Transition/Ends.antt =====
-- The loop of `process_slots` in beacon/src/executive/transition/mod.rs ends.
use shasper.Prelude.{
  ℕ, zero, suc, ◌+◌, ◌-◌, ◌≤◌, ◌<◌, Bool-cases, inl, inr, arith, List, ltb, leb, leb→le, u64_mod,
  [], ◌∷◌,
}
use shasper.Types.{BeaconState, Validator}
use shasper.Outcome.{index, slot_out_of_range}
use shasper.Outcome.Ends.{Ends, ok-Ends, bind-Ends, index-Ends, panic-Ends}
use shasper.Config.{Config}
use shasper.Executive.Monad.{reads, require, gets, ◌>>=◌}
use shasper.Executive.Terminates.{
  Terminates, terminates_rules, reads-Terminates, commit-Terminates, bind-Terminates, bind-Ends_at,
  require-Terminates, gets-Terminates, if-Terminates, when-Terminates, modify-Terminates,
  pure-Terminates,
}
use shasper.Executive.Runs.{runs_require}
use shasper.Executive.Mutators.{increase_balance, decrease_balance, initiate_validator_exit}
use shasper.Executive.Ends.{total_active_balance-Ends}
use shasper.Executive.Epoch.{process_epoch}
use shasper.Executive.Epoch.Ends.{justified_state-Ends, attestation_deltas-Ends}
use shasper.Executive.Epoch.Justification.{process_justification_and_finalization}
use shasper.Executive.Epoch.Deltas.{Deltas, attestation_deltas}
use shasper.Executive.Epoch.Reward.{apply_deltas, process_rewards_and_penalties}
use shasper.Executive.Epoch.Registry.{update_eligibility, activate, process_registry_updates}
use shasper.Executive.Epoch.Slashing.{process_slashing, process_slashings}
use shasper.Executive.Epoch.Finalize.{update_effective_balances, process_final_updates}
use shasper.Executive.Transition.{advance_slot, slots_loop, process_slots}
use shasper.Executive.Transition.Slot.{slot-advance_slot}

index-Terminates :
    {A : Type 0} (xs : BeaconState → List A) (i : ℕ) → Terminates (reads (λ s. index (xs s) i))
index-Terminates xs i = reads-Terminates _ (λ s. index-Ends (xs s) i)

increase_balance-Terminates : (i delta : ℕ) → Terminates (increase_balance i delta)
unfolding increase_balance
increase_balance-Terminates i delta = search terminates_rules

decrease_balance-Terminates : (i delta : ℕ) → Terminates (decrease_balance i delta)
unfolding decrease_balance
decrease_balance-Terminates i delta = search terminates_rules

apply_deltas-Terminates : (d : Deltas) (i : ℕ) → Terminates (apply_deltas d i)
unfolding apply_deltas
apply_deltas-Terminates d i =
    search
      (terminates_rules, index-Terminates, increase_balance-Terminates, decrease_balance-Terminates)
      depth 12

module _ (C : Config) where
  update_effective_balances-Ends :
      (vs : List Validator) (bs : List ℕ) → Ends (update_effective_balances C vs bs)
  unfolding update_effective_balances
  update_effective_balances-Ends [] bs = ok-Ends _
  update_effective_balances-Ends (v ∷ vs) [] = panic-Ends
  update_effective_balances-Ends (v ∷ vs) (b ∷ bs) =
      bind-Ends _ _ (update_effective_balances-Ends vs bs) (λ rest. ok-Ends _)

  exit-Terminates : (i : ℕ) → Terminates (initiate_validator_exit C i)
  unfolding initiate_validator_exit
  exit-Terminates i = search (terminates_rules, index-Terminates) depth 12

  justification-Terminates : Terminates (process_justification_and_finalization C)
  unfolding process_justification_and_finalization
  justification-Terminates = commit-Terminates _ (justified_state-Ends C)

  deltas-Terminates : Terminates (reads (attestation_deltas C))
  deltas-Terminates = reads-Terminates _ (attestation_deltas-Ends C)

  rewards-Terminates : Terminates (process_rewards_and_penalties C)
  unfolding process_rewards_and_penalties
  rewards-Terminates = bind-Terminates _ _ (gets-Terminates _) λ epoch.
      if-Terminates _ _ _ (pure-Terminates tt) (
        bind-Terminates _ _ deltas-Terminates
          (λ d. search (terminates_rules, apply_deltas-Terminates) depth 12))

  eligibility-Terminates : (i : ℕ) → Terminates (update_eligibility C i)
  unfolding update_eligibility
  eligibility-Terminates i = search (terminates_rules, index-Terminates, exit-Terminates) depth 20

  activate-Terminates : (i : ℕ) → Terminates (activate C i)
  unfolding activate
  activate-Terminates i = search terminates_rules

  registry-Terminates : Terminates (process_registry_updates C)
  unfolding process_registry_updates
  registry-Terminates =
      search (terminates_rules, eligibility-Terminates, activate-Terminates) depth 20

  slashing-Terminates : (epoch total i : ℕ) → Terminates (process_slashing C epoch total i)
  unfolding process_slashing
  slashing-Terminates epoch total i =
      search (terminates_rules, index-Terminates, decrease_balance-Terminates) depth 20

  slashings-Terminates : Terminates (process_slashings C)
  unfolding process_slashings
  slashings-Terminates = bind-Terminates _ _ (gets-Terminates _) λ epoch.
      bind-Terminates _ _ (reads-Terminates _ (total_active_balance-Ends C))
        λ total. search (terminates_rules, slashing-Terminates) depth 12

  final-Terminates : Terminates (process_final_updates C)
  unfolding process_final_updates
  final-Terminates =
      commit-Terminates _ λ s.
        bind-Ends _ _ (update_effective_balances-Ends s.validators s.balances) (λ vs. ok-Ends _)

  epoch-Terminates : Terminates (process_epoch C)
  unfolding process_epoch
  epoch-Terminates = bind-Terminates _ _ justification-Terminates λ _.
      bind-Terminates _ _ rewards-Terminates λ _.
        bind-Terminates _ _ registry-Terminates
          λ _. bind-Terminates _ _ slashings-Terminates (λ _. final-Terminates)

  advance-Terminates : Terminates (advance_slot C)
  unfolding advance_slot
  advance-Terminates = bind-Terminates _ _ (modify-Terminates _) λ _.
      bind-Terminates _ _ (gets-Terminates _) λ slot.
        bind-Terminates _ _ (when-Terminates _ _ epoch-Terminates) (λ _. modify-Terminates _)

  loop-Ends :
      (fuel target : ℕ) (s : BeaconState)
      → s.slot ≤ target
      → target < u64_mod
      → target < s.slot + fuel
      → Ends (slots_loop C fuel target s).0
  unfolding slots_loop
  loop-Ends zero target s le bound h = absurd (omega arith)
  loop-Ends (suc fuel) target s le bound h = elim (Bool-cases (ltb s.slot target)) [
    | inl before ↦ rw before (
        bind-Ends_at (advance_slot C) (λ _. slots_loop C fuel target) s
          (advance-Terminates.terminates s)
          λ a t e.
            let next = slot-advance_slot C s t e in
            loop-Ends fuel target t (ground (arith, next)) bound (ground (arith, next)))
    | inr there ↦ rw there (ok-Ends tt)
  ]

  -- From every state, `process_slots` ends for every target slot of 64 bits, with success, an error
  -- or a panic: its loop stops, and so does everything that the epochs on its way run.
  pub process_slots-Ends :
      (slot : ℕ) (s : BeaconState) → slot < u64_mod → Ends (process_slots C slot s).0
  unfolding process_slots ◌>>=◌ gets
  process_slots-Ends slot s bound =
      bind-Ends_at (require (leb s.slot slot) slot_out_of_range)
        (λ _. slots_loop C (suc (slot - s.slot)) slot) s ((require-Terminates _ _).terminates s)
        λ a t e.
          let (before, at) = runs_require _ _ e in
          let le = leb→le s.slot slot before in
          rw at (loop-Ends (suc (slot - s.slot)) slot s le bound (omega arith))
