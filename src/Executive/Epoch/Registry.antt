-- ===== src/Executive/Epoch/Registry.antt =====
-- beacon/src/executive/transition/per_epoch/registry.rs.
use shasper.Prelude.{
  ℕ, not, ◌&&◌, none, some, List, [], ◌∷◌, if◌then◌else◌, ◌==◌, leb, length, get_elem?, take,
  positions, range_from,
}
use shasper.Types.{BeaconState, Validator, is_active}
use shasper.Outcome.{index}
use shasper.Config.{Config}
use shasper.Utils.{far_future_epoch, activation_exit_epoch}
use shasper.Executive.Accessors.{current_epoch, validator_churn_limit}
use shasper.Executive.Mutators.{initiate_validator_exit}
use shasper.Executive.Monad.{M, ◌>>=◌, ◌>>◌, reads, gets, when, for_each, modify_validator}

-- `sort_by_key`, which is stable.
unfoldable pub insert_by : (ℕ → ℕ) → ℕ → List ℕ → List ℕ
insert_by key a [] = a ∷ []
insert_by key a (x ∷ xs) = if leb (key a) (key x) then a ∷ x ∷ xs else x ∷ insert_by key a xs

unfoldable pub sort_by_key : (ℕ → ℕ) → List ℕ → List ℕ
sort_by_key key [] = []
sort_by_key key (x ∷ xs) = insert_by key x (sort_by_key key xs)

-- The key; every index of the queue is one of the registry.
unfoldable pub eligibility : List Validator → ℕ → ℕ
eligibility validators i = elim (get_elem? validators i) [
  | none ↦ 0
  | some v ↦ v.activation_eligibility_epoch
]

module _ (C : Config) where
  -- The first loop, for one validator.
  unfoldable pub update_eligibility : ℕ → M (Unit {0})
  update_eligibility i = do
    epoch ← gets (current_epoch C)
    before ← reads (λ s. index s.validators i)
    when
        ((before.activation_eligibility_epoch == far_future_epoch)
          && (before.effective_balance == C.max_effective_balance))
        (modify_validator i λ v. record v { activation_eligibility_epoch = epoch })
    after ← reads (λ s. index s.validators i)
    when (is_active after epoch && leb after.effective_balance C.ejection_balance)
        (initiate_validator_exit C i)

  unfoldable pub activation_queue : BeaconState → List ℕ
  activation_queue s = sort_by_key (eligibility s.validators) (
      positions
        (λ v.
          not (v.activation_eligibility_epoch == far_future_epoch)
          && leb (activation_exit_epoch C s.finalized_checkpoint.epoch) v.activation_epoch)
        0 s.validators)

  -- The second loop, for one validator of the queue.
  unfoldable pub activate : ℕ → M (Unit {0})
  activate i = do
    epoch ← gets (current_epoch C)
    modify_validator i λ v. record v {
      activation_epoch =
          if v.activation_epoch == far_future_epoch
          then activation_exit_epoch C epoch
          else v.activation_epoch;
    }

  unfoldable pub process_registry_updates : M (Unit {0})
  process_registry_updates = do
    count ← gets (λ s. length s.validators)
    for_each (range_from 0 count) update_eligibility
    queue ← gets activation_queue
    churn_limit ← gets (validator_churn_limit C)
    for_each (take churn_limit queue) activate
