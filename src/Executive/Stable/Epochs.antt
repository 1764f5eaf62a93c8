-- ===== src/Executive/Stable/Epochs.antt =====
-- Epoch processing keeps a stable property that justification keeps.
use shasper.Prelude.{ℕ, sym}
use shasper.Types.{BeaconState}
use shasper.Outcome.{>>=-eq-ok, ok-injective}
use shasper.Config.{Config}
use shasper.Executive.Epoch.{process_epoch}
use shasper.Executive.Epoch.Justification.{process_justification_and_finalization}
use shasper.Executive.Epoch.Deltas.{Deltas}
use shasper.Executive.Epoch.Reward.{process_rewards_and_penalties, apply_deltas}
use shasper.Executive.Epoch.Registry.{update_eligibility, activate, process_registry_updates}
use shasper.Executive.Epoch.Slashing.{process_slashing, process_slashings}
use shasper.Executive.Epoch.Finalize.{process_final_updates, update_effective_balances}
use shasper.Executive.Keeps.{Keeps, keeps_rules, commit-Keeps}
use shasper.Executive.Stable.{
  IsStable, stable_validator, stable_increase, stable_decrease, stable_exit,
}

module _ (C : Config) {P : BeaconState → Type 0} (st : IsStable C P) where
  stable_deltas : (d : Deltas) (i : ℕ) → Keeps P (apply_deltas d i)
  unfolding apply_deltas
  stable_deltas d i = search (keeps_rules, stable_increase C st, stable_decrease C st) depth 9

  pub stable_rewards : Keeps P (process_rewards_and_penalties C)
  unfolding process_rewards_and_penalties
  stable_rewards = search (keeps_rules, stable_deltas) depth 20

  stable_eligibility : (i : ℕ) → Keeps P (update_eligibility C i)
  unfolding update_eligibility
  stable_eligibility i = search (keeps_rules, stable_validator C st, stable_exit C st) depth 20

  stable_activate : (i : ℕ) → Keeps P (activate C i)
  unfolding activate
  stable_activate i = search (keeps_rules, stable_validator C st) depth 9

  pub stable_registry : Keeps P (process_registry_updates C)
  unfolding process_registry_updates
  stable_registry = search (keeps_rules, stable_eligibility, stable_activate) depth 20

  stable_penalty : (epoch total i : ℕ) → Keeps P (process_slashing C epoch total i)
  unfolding process_slashing
  stable_penalty epoch total i = search (keeps_rules, stable_decrease C st) depth 20

  pub stable_slashings : Keeps P (process_slashings C)
  unfolding process_slashings
  stable_slashings = search (keeps_rules, stable_penalty) depth 20

  pub stable_final : Keeps P (process_final_updates C)
  unfolding process_final_updates
  stable_final = commit-Keeps _ λ s s' h e.
      let (vs, ev, e') = >>=-eq-ok (update_effective_balances C s.validators s.balances) _ e in
      rw (sym (ok-injective e')) (st.at_effective s vs ev h)

  pub stable_epoch : Keeps P (process_justification_and_finalization C) → Keeps P (process_epoch C)
  unfolding process_epoch
  stable_epoch justified =
      search (keeps_rules, stable_rewards, stable_registry, stable_slashings, stable_final) depth 20
