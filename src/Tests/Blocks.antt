-- ===== src/Tests/Blocks.antt =====
-- Attestations and deposits on concrete inputs.
use shasper.Prelude.{◌≡◌, ◌↔◌, refl, ap, [], ◌∷◌, true, false, replicate}
use shasper.Types.{BeaconState, Attestation, Deposit, zero_hash}
use shasper.Outcome.{ok}
use shasper.Config.{bls_no_verification}
use shasper.Utils.{
  is_valid_merkle_branch, shuffled_index, shuffle_rounds, shuffle_round, shuffle_bit, flip_index,
  to_uint, to_bytes, bls_domain, compute_committee,
}
use shasper.Executive.Monad.{
  pure, reads, gets, require, modify, ◌>>=◌, when, for_each, modify_validator, modify_balance,
  commit,
}
use shasper.Executive.Accessors.{
  select_bits, current_epoch, previous_epoch, block_root_at_slot, block_root, randao_mix,
  active_validator_indices, active_validator_len, validator_churn_limit, seed,
  committee_count_at_slot, beacon_committee, proposer_loop, beacon_proposer_index, sum_balances,
  total_balance, total_active_balance, domain, attesting_indices, indexed_attestation,
}
use shasper.Executive.Predicates.{has_valid_indices, pubkeys_at, is_valid_indexed_attestation}
use shasper.Executive.Operations.Votes.{push_attestation, process_attestation}
use shasper.Genesis.{initial_state}
use shasper.Executive.Mutators.{increase_balance}
use shasper.Executive.Operations.Registry.{
  find_pubkey, new_validator, add_validator, deposit_new, process_deposit,
}
use shasper.Executive.Operations.Included.{Included, process_attestation-Included}
use shasper.Executive.Operations.Deposited.{IsProved, Deposited, process_deposit-Deposited}
use shasper.Tests.Samples.{small, checkpoint_at, staked}

-- The one validator attests at the last slot of the first epoch, and the block is at the next slot.
unfoldable next_epoch : BeaconState
unfolding staked initial_state
next_epoch = record staked { slot = 8 }

abbrev vote : Attestation
vote = record {
  aggregation_bits = true ∷ [];
  att_data = record {
    slot = 7;
    index = 0;
    beacon_block_root = zero_hash;
    source = checkpoint_at 0;
    target = checkpoint_at 0;
  };
  custody_bits = false ∷ [];
  signature = replicate 96 0;
}

abbrev voted : BeaconState
voted = (process_attestation small bls_no_verification vote next_epoch).1

vote_accepted : (process_attestation small bls_no_verification vote next_epoch).0 ≡ ok tt
unfolding next_epoch staked initial_state pure reads gets require modify ◌>>=◌ when for_each
    modify_validator modify_balance commit select_bits current_epoch previous_epoch
    block_root_at_slot block_root randao_mix active_validator_indices active_validator_len
    validator_churn_limit seed committee_count_at_slot beacon_committee proposer_loop
    beacon_proposer_index sum_balances total_balance total_active_balance domain attesting_indices
    indexed_attestation has_valid_indices pubkeys_at is_valid_indexed_attestation push_attestation
    process_attestation shuffled_index shuffle_rounds shuffle_round shuffle_bit flip_index to_uint
    to_bytes bls_domain compute_committee
vote_accepted = refl

process_attestation-Included_example :
    (process_attestation small bls_no_verification vote next_epoch ≡ (ok tt, voted))
    ↔ Included small bls_no_verification vote next_epoch voted
process_attestation-Included_example =
    process_attestation-Included small bls_no_verification vote next_epoch voted

vote_included : Included small bls_no_verification vote next_epoch voted
vote_included =
    (process_attestation-Included small bls_no_verification vote next_epoch voted).0
      (ap (λ r. (r, voted)) vote_accepted)

-- A second deposit of the same key.
abbrev top_up : Deposit
top_up = record {
  proof = replicate 33 zero_hash;
  deposit_data = record {
    pubkey = replicate 48 1;
    withdrawal_credentials = zero_hash;
    amount = 5;
    signature = replicate 96 0;
  };
}

abbrev topped_up : BeaconState
topped_up = (process_deposit small bls_no_verification top_up staked).1

top_up_accepted : (process_deposit small bls_no_verification top_up staked).0 ≡ ok tt
unfolding staked initial_state process_deposit deposit_new find_pubkey is_valid_merkle_branch
    add_validator new_validator increase_balance modify_balance domain bls_domain current_epoch
    ◌>>=◌ gets modify require
top_up_accepted = refl

process_deposit-Deposited_example :
    (process_deposit small bls_no_verification top_up staked ≡ (ok tt, topped_up)) ↔ (
      IsProved small bls_no_verification top_up staked
      × Deposited small bls_no_verification top_up.deposit_data staked topped_up)
process_deposit-Deposited_example =
    process_deposit-Deposited small bls_no_verification top_up staked topped_up

topped_up-Deposited : Deposited small bls_no_verification top_up.deposit_data staked topped_up
topped_up-Deposited =
    ((process_deposit-Deposited small bls_no_verification top_up staked topped_up).0
      (ap (λ r. (r, topped_up)) top_up_accepted)).1
