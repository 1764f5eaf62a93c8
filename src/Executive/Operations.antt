-- ===== src/Executive/Operations.antt =====
-- mod.rs of beacon/src/executive/transition/per_block/operations.
pub mod Slashings
pub mod Votes
pub mod Registry
pub mod Once
pub mod Deposited
pub mod Included
pub mod Keyed
use shasper.Prelude.{ℕ, min, List, leb, ◌==◌, length, sub64}
use shasper.Types.{BeaconState, BeaconBlockBody}
use shasper.Outcome.{
  too_many_deposits, too_many_proposer_slashings, too_many_attester_slashings,
  too_many_attestations, too_many_voluntary_exits,
}
use shasper.Config.{Config, BlsConfig}
use shasper.Executive.Monad.{M, ◌>>=◌, ◌>>◌, gets, require, for_each}
use Slashings.{process_proposer_slashing, process_attester_slashing}
use Votes.{process_attestation}
use Registry.{process_deposit, process_voluntary_exit}

-- The deposits that the next block has to hold.
unfoldable pub outstanding_deposits : Config → BeaconState → ℕ
outstanding_deposits C s = min C.max_deposits (sub64 s.eth1_data.deposit_count s.eth1_deposit_index)

module _ (C : Config) (B : BlsConfig) where
  unfoldable pub process_operations : BeaconBlockBody → M (Unit {0})
  process_operations body = do
    outstanding ← gets (outstanding_deposits C)
    require (length body.deposits == outstanding) too_many_deposits
    require (leb (length body.proposer_slashings) C.max_proposer_slashings)
        too_many_proposer_slashings
    for_each body.proposer_slashings (process_proposer_slashing C B)
    require (leb (length body.attester_slashings) C.max_attester_slashings)
        too_many_attester_slashings
    for_each body.attester_slashings (process_attester_slashing C B)
    require (leb (length body.attestations) C.max_attestations) too_many_attestations
    for_each body.attestations (process_attestation C B)
    require (leb (length body.deposits) C.max_deposits) too_many_deposits
    for_each body.deposits (process_deposit C B)
    require (leb (length body.voluntary_exits) C.max_voluntary_exits) too_many_voluntary_exits
    for_each body.voluntary_exits (process_voluntary_exit C B)
