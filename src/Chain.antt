-- ===== src/Chain.antt =====
-- Blocks and the executor as the chain sees them (blockchain/runtime/src/lib.rs, blockchain/src/lib.rs).
pub mod Linked
use shasper.Prelude.{ℕ, List, if◌then◌else◌, Option, none, some, Bytes, bytes_eq, Bool}
use shasper.Results.{◌>>=◌}
use shasper.Types.{
  BeaconBlock, UnsealedBeaconBlock, BeaconState, SigningBeaconBlockHeader, zero_hash,
}
use shasper.Outcome.{Outcome, ok, err, panic, diverge, Error}
use shasper.Config.{Config, BlsConfig}
use shasper.Builder.{execute_block}
use shasper.Executive.Assignment.{justified_active_validators, block_vote_targets}
use shasper.Ghost.Importer.{Executor}

unfoldable pub parent_id : BeaconBlock → Option Bytes
parent_id block = if bytes_eq block.parent_root zero_hash then none else some block.parent_root

unfoldable pub justified_block_id : BeaconState → Option Bytes
justified_block_id s =
    let root = s.current_justified_checkpoint.root in
    if bytes_eq root zero_hash then none else some root

-- The state that a call leaves where it succeeds.
abbrev pub executed : Outcome (Unit {0}) × BeaconState → Outcome BeaconState
executed (ok x, s) = ok s
executed (err e, s) = err e
executed (panic, s) = panic
executed (diverge, s) = diverge

module _ (C : Config) where
  unfoldable pub id : BeaconBlock → Bytes
  id block = C.hasher.header_root (record {
    slot = block.slot;
    parent_root = block.parent_root;
    state_root = block.state_root;
    body_root = C.hasher.body_root block.body;
  })

module _ (C : Config) (B : BlsConfig) where
  -- What the importer calls.
  unfoldable pub executor : Executor Error BeaconBlock BeaconState
  unfolding justified_block_id
  executor = record {
    execute_block = λ block s. executed (execute_block C B block s);
    justified_active_validators = λ s. ok (justified_active_validators C s);
    justified_block_id = λ s. ok (justified_block_id s);
    votes = λ block s. block_vote_targets C s block;
  }
