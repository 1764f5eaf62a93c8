-- ===== src/Executive/Epoch/Justification.antt =====
-- beacon/src/executive/transition/per_epoch/justification.rs, and `impl JustifierRegistry for
-- BeaconExecutive` of beacon/src/executive/mod.rs.
use shasper.Prelude.{leb, if◌then◌else◌, add64}
use shasper.Types.{BeaconState, Checkpoint}
use shasper.Outcome.{Outcome, ok, ◌>>=◌}
use shasper.Config.{Config}
use shasper.Justifier.{Justifier, JustifierRegistry, process}
use shasper.Executive.Accessors.{current_epoch, previous_epoch, block_root, total_active_balance}
use shasper.Executive.Epoch.Helpers.{matching_target_attestations, attesting_balance}
use shasper.Executive.Monad.{M, commit}

-- The processor that is built from the state, and what is written back from it.
unfoldable pub justifier_of : BeaconState → Justifier Checkpoint
justifier_of s = record {
  justification_bits = s.justification_bits;
  current_justified_checkpoint = s.current_justified_checkpoint;
  previous_justified_checkpoint = s.previous_justified_checkpoint;
  finalized_checkpoint = s.finalized_checkpoint;
}

unfoldable pub with_justifier : BeaconState → Justifier Checkpoint → BeaconState
with_justifier s processed = record s {
  justification_bits = processed.justification_bits;
  current_justified_checkpoint = processed.current_justified_checkpoint;
  previous_justified_checkpoint = processed.previous_justified_checkpoint;
  finalized_checkpoint = processed.finalized_checkpoint;
}

module _ (C : Config) where
  unfoldable pub justifier_registry : BeaconState → JustifierRegistry Checkpoint
  justifier_registry s = record {
    total_active_balance = total_active_balance C s;
    attesting_target_balance = λ checkpoint.
        matching_target_attestations C s checkpoint.epoch >>= λ attestations.
        attesting_balance C s attestations;
  }

  -- The state after it, where nothing fails.
  unfoldable pub justified_state : BeaconState → Outcome BeaconState
  justified_state s = if leb (current_epoch C s) (add64 C.genesis_epoch 1) then ok s else (do
    previous_root ← block_root C s (previous_epoch C s)
    current_root ← block_root C s (current_epoch C s)
    processed ←
        process (λ c. c.epoch) (justifier_of s)
          (record { epoch = previous_epoch C s; root = previous_root })
          (record { epoch = current_epoch C s; root = current_root }) (justifier_registry s)
    ok (with_justifier s processed))

  unfoldable pub process_justification_and_finalization : M (Unit {0})
  process_justification_and_finalization = commit justified_state
