-- ===== src/Executive/Epoch/Reward.antt =====
-- `process_rewards_and_penalties` of beacon/src/executive/transition/per_epoch/reward.rs.
use shasper.Prelude.{ℕ, if◌then◌else◌, ◌==◌, length, range_from}
use shasper.Outcome.{index}
use shasper.Config.{Config}
use shasper.Executive.Accessors.{current_epoch}
use shasper.Executive.Epoch.Deltas.{Deltas, attestation_deltas}
use shasper.Executive.Mutators.{increase_balance, decrease_balance}
use shasper.Executive.Monad.{M, ◌>>=◌, ◌>>◌, pure, reads, gets, for_each}

-- The loop that applies the deltas to validator `i`.
unfoldable pub apply_deltas : Deltas → ℕ → M (Unit {0})
apply_deltas deltas i = reads (λ _. index deltas.rewards i) >>= λ gain.
    increase_balance i gain
    >> (reads (λ _. index deltas.penalties i) >>= λ loss. decrease_balance i loss)

module _ (C : Config) where
  unfoldable pub process_rewards_and_penalties : M (Unit {0})
  process_rewards_and_penalties = do
    epoch ← gets (current_epoch C)
    if epoch == C.genesis_epoch then pure tt else (do
      deltas ← reads (attestation_deltas C)
      count ← gets (λ s. length s.validators)
      for_each (range_from 0 count) (apply_deltas deltas))
