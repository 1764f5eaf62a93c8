-- ===== src/Executive/Epoch.antt =====
-- beacon/src/executive/transition/per_epoch/mod.rs.
pub mod Helpers
pub mod Justification
pub mod Finality
pub mod Deltas
pub mod Reward
pub mod Registry
pub mod Slashing
pub mod Finalize
pub mod Ends
pub mod Hysteresis
pub mod Inclusion
use shasper.Config.{Config}
use Justification.{process_justification_and_finalization}
use Reward.{process_rewards_and_penalties}
use Registry.{process_registry_updates}
use Slashing.{process_slashings}
use Finalize.{process_final_updates}
use shasper.Executive.Monad.{M, ◌>>=◌, ◌>>◌}

module _ (C : Config) where
  unfoldable pub process_epoch : M (Unit {0})
  process_epoch = do
    process_justification_and_finalization C
    process_rewards_and_penalties C
    process_registry_updates C
    process_slashings C
    process_final_updates C
