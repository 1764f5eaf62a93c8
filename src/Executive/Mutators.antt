-- ===== src/Executive/Mutators.antt =====
-- beacon/src/executive/helpers/mutators.rs.
pub mod Exit
pub mod Slash
use shasper.Prelude.{
  ℕ, ◌/◌, ◌%◌, max, true, Option, none, some, List, [], ◌∷◌, if◌then◌else◌, ◌==◌, leb, count,
  get_or, set, add64, sub64,
}
use shasper.Types.{BeaconState, Validator}
use shasper.Outcome.{index}
use shasper.Config.{Config}
use shasper.Utils.{far_future_epoch, activation_exit_epoch}
use shasper.Executive.Accessors.{
  current_epoch, validator_churn_limit, beacon_proposer_index, saturating_sub,
}
use shasper.Executive.Monad.{
  M, ◌>>=◌, ◌>>◌, reads, gets, modify, when, modify_validator, modify_balance,
}

unfoldable pub increase_balance : ℕ → ℕ → M (Unit {0})
increase_balance i delta = modify_balance i (λ b. add64 b delta)

unfoldable pub decrease_balance : ℕ → ℕ → M (Unit {0})
decrease_balance i delta = modify_balance i (λ b. saturating_sub b delta)

-- The greatest exit epoch that is set, 0 where none is.
unfoldable pub last_exit_epoch : List Validator → ℕ
last_exit_epoch [] = 0
last_exit_epoch (v ∷ vs) =
    if v.exit_epoch == far_future_epoch
    then last_exit_epoch vs
    else max v.exit_epoch (last_exit_epoch vs)

module _ (C : Config) where
  -- The epoch at which `initiate_validator_exit` lets the next validator exit.
  unfoldable pub exit_queue_epoch : BeaconState → ℕ
  exit_queue_epoch s =
      let queue_epoch =
        max (last_exit_epoch s.validators) (activation_exit_epoch C (current_epoch C s)) in
      let exit_queue_churn = count (λ v. v.exit_epoch == queue_epoch) s.validators in
      if leb (validator_churn_limit C s) exit_queue_churn then add64 queue_epoch 1 else queue_epoch

  unfoldable pub initiate_validator_exit : ℕ → M (Unit {0})
  initiate_validator_exit i = do
    validator ← reads (λ s. index s.validators i)
    exit_epoch ← gets exit_queue_epoch
    when (validator.exit_epoch == far_future_epoch) (
        modify_validator i λ v. record v {
          exit_epoch = exit_epoch;
          withdrawable_epoch = add64 exit_epoch C.min_validator_withdrawability_delay;
        })

  -- `self.state.slashings[..] += balance`
  unfoldable pub add_slashing : ℕ → BeaconState → BeaconState
  add_slashing balance s =
      let slot = current_epoch C s % C.epochs_per_slashings_vector in
      record s { slashings = set s.slashings slot (add64 (get_or s.slashings slot 0) balance) }

  -- The last part of `slash_validator`: the penalty and the rewards.
  unfoldable pub slash_rewards : ℕ → Option ℕ → M (Unit {0})
  slash_rewards slashed_index whistleblower = do
    slashed_validator ← reads (λ s. index s.validators slashed_index)
    let slashed_balance = slashed_validator.effective_balance
    modify (add_slashing slashed_balance)
    decrease_balance slashed_index (slashed_balance / C.min_slashing_penalty_quotient)
    proposer_index ← reads (beacon_proposer_index C)
    let whistleblower_index : ℕ = elim whistleblower [ none ↦ proposer_index | some w ↦ w ]
    let whistleblowing_reward = slashed_balance / C.whistleblower_reward_quotient
    let proposer_reward = whistleblowing_reward / C.proposer_reward_quotient
    increase_balance proposer_index proposer_reward
    increase_balance whistleblower_index (sub64 whistleblowing_reward proposer_reward)

  unfoldable pub slash_validator : ℕ → Option ℕ → M (Unit {0})
  slash_validator slashed_index whistleblower = do
    epoch ← gets (current_epoch C)
    initiate_validator_exit slashed_index
    modify_validator slashed_index λ v. record v { slashed = true }
    modify_validator slashed_index λ v. record v {
      withdrawable_epoch = max v.withdrawable_epoch (add64 epoch C.epochs_per_slashings_vector);
    }
    slash_rewards slashed_index whistleblower
