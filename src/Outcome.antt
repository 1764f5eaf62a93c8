-- ===== src/Outcome.antt =====
-- beacon/src/error.rs, and the results of the calls that fail with these errors.
pub mod Ends
use shasper.Results.{Result}
pub use shasper.Results.{
  ok, err, panic, diverge, ◌>>=◌, ◌>>◌, require, index, update, checked_div, checked_rem, traverse,
  try_fold, >>=-eq-ok, ok-injective,
}

pub data Error : Type 0 where
  deposit_index_mismatch : Error
  deposit_merkle_invalid : Error
  deposit_proof_invalid : Error
  deposit_withdrawal_credentials_mismatch : Error
  duplicate_indexes : Error
  duplicate_transfer : Error
  index_out_of_range : Error
  epoch_out_of_range : Error
  slot_out_of_range : Error
  attestation_shard_invalid : Error
  attestation_bit_field_invalid : Error
  validator_not_withdrawable : Error
  validator_attestation_not_found : Error
  block_state_root_invalid : Error
  block_slot_invalid : Error
  block_proposer_slashed : Error
  block_previous_root_invalid : Error
  block_signature_invalid : Error
  randao_signature_invalid : Error
  proposer_slashing_invalid_proposer_index : Error
  proposer_slashing_invalid_slot : Error
  proposer_slashing_same_header : Error
  proposer_slashing_already_slashed : Error
  proposer_slashing_invalid_signature : Error
  attester_slashing_same_attestation : Error
  attester_slashing_not_slashable : Error
  attester_slashing_invalid : Error
  attester_slashing_empty_indices : Error
  attestation_too_far_in_history : Error
  attestation_submitted_too_quickly : Error
  attestation_incorrect_justified_epoch_or_block_root : Error
  attestation_incorrect_crosslink_data : Error
  attestation_empty_aggregation : Error
  attestation_empty_custody : Error
  attestation_invalid_data : Error
  attestation_invalid_shard : Error
  attestation_invalid_custody : Error
  attestation_invalid_signature : Error
  attestation_invalid_crosslink : Error
  voluntary_exit_already_exited : Error
  voluntary_exit_already_initiated : Error
  voluntary_exit_not_yet_valid : Error
  voluntary_exit_not_long_enough : Error
  voluntary_exit_invalid_signature : Error
  transfer_no_fund : Error
  transfer_not_valid_slot : Error
  transfer_not_withdrawable : Error
  transfer_invalid_public_key : Error
  transfer_invalid_signature : Error
  too_many_proposer_slashings : Error
  too_many_attester_slashings : Error
  too_many_attestations : Error
  too_many_deposits : Error
  too_many_voluntary_exits : Error
  too_many_transfers : Error
  invalid_eth1_data : Error

abbrev pub Outcome {ℓ} : Type ℓ → Type ℓ
Outcome A = Result Error A
