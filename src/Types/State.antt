-- ===== src/Types/State.antt =====
-- `BeaconState` of beacon/src/executive/mod.rs. `BeaconExecutive` is a mutable reference to it, and
-- its two cache fields are written `None` and never read: the functions take the state itself.
use shasper.Prelude.{ℕ, Bool, List, Bytes}
use shasper.Types.Misc.{
  Fork, BeaconBlockHeader, Eth1Data, Validator, PendingAttestation, Checkpoint,
}

pub record BeaconState : Type 0 where
  pub genesis_time : ℕ
  pub slot : ℕ
  pub fork : Fork
  pub latest_block_header : BeaconBlockHeader
  pub block_roots : List Bytes
  pub state_roots : List Bytes
  pub historical_roots : List Bytes
  pub eth1_data : Eth1Data
  pub eth1_data_votes : List Eth1Data
  pub eth1_deposit_index : ℕ
  pub validators : List Validator
  pub balances : List ℕ
  pub randao_mixes : List Bytes
  pub slashings : List ℕ
  pub previous_epoch_attestations : List PendingAttestation
  pub current_epoch_attestations : List PendingAttestation
  pub justification_bits : List Bool
  pub previous_justified_checkpoint : Checkpoint
  pub current_justified_checkpoint : Checkpoint
  pub finalized_checkpoint : Checkpoint
