-- ===== src/Executive/Epoch/Slashing.antt =====
-- beacon/src/executive/transition/per_epoch/slashing.rs.
use shasper.Prelude.{ℕ, ◌/◌, min, Bool, ◌&&◌, List, [], ◌∷◌, ◌==◌, length, range_from, add64, mul64}
use shasper.Types.{BeaconState, Validator}
use shasper.Outcome.{index}
use shasper.Config.{Config}
use shasper.Executive.Accessors.{current_epoch, total_active_balance}
use shasper.Executive.Mutators.{decrease_balance}
use shasper.Executive.Monad.{M, ◌>>=◌, reads, gets, when, for_each}

-- `fold(0, |acc, x| acc + *x)`
unfoldable pub sum_slashings : ℕ → List ℕ → ℕ
sum_slashings acc [] = acc
sum_slashings acc (x ∷ xs) = sum_slashings (add64 acc x) xs

module _ (C : Config) where
  -- The penalty of a slashed validator, half way to its withdrawable epoch.
  unfoldable pub slashing_penalty : BeaconState → ℕ → Validator → ℕ
  slashing_penalty s total_balance validator =
      let increment = C.effective_balance_increment in
      let penalty_numerator =
        mul64 (validator.effective_balance / increment)
          (min (mul64 (sum_slashings 0 s.slashings) 3) total_balance) in
      mul64 (penalty_numerator / total_balance) increment

  unfoldable pub is_penalty_due : ℕ → Validator → Bool
  is_penalty_due epoch validator =
      validator.slashed
      && (add64 epoch (C.epochs_per_slashings_vector / 2) == validator.withdrawable_epoch)

  unfoldable pub process_slashing : ℕ → ℕ → ℕ → M (Unit {0})
  process_slashing epoch total_balance i = do
    validator ← reads (λ s. index s.validators i)
    penalty ← gets (λ s. slashing_penalty s total_balance validator)
    when (is_penalty_due epoch validator) (decrease_balance i penalty)

  unfoldable pub process_slashings : M (Unit {0})
  process_slashings = do
    epoch ← gets (current_epoch C)
    total_balance ← reads (total_active_balance C)
    count ← gets (λ s. length s.validators)
    for_each (range_from 0 count) (process_slashing epoch total_balance)
