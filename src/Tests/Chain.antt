-- ===== src/Tests/Chain.antt =====
-- A block that is executed on a concrete state, and what the executor and the chain read.
use shasper.Prelude.{◌≡◌, ap, refl, none, some}
use shasper.Prelude.{le_bytes}
use shasper.Types.{BeaconBlock, BeaconState, default_body, signing_header}
use shasper.Prelude.{replicate}
use shasper.Outcome.{ok}
use shasper.Config.{bls_no_verification}
use shasper.Utils.{
  shuffled_index, shuffle_rounds, shuffle_round, shuffle_bit, flip_index, to_uint, to_bytes,
  bls_domain, compute_committee,
}
use shasper.Genesis.{initial_state}
use shasper.Executive.Monad.{
  pure, reads, gets, require, modify, ◌>>=◌, when, for_each, modify_validator, modify_balance,
  commit,
}
use shasper.Executive.Accessors.{
  current_epoch, previous_epoch, randao_mix, active_validator_indices, active_validator_len, seed,
  committee_count_at_slot, beacon_committee, proposer_loop, beacon_proposer_index, domain,
}
use shasper.Executive.Header.{
  add_eth1_vote, process_eth1_data, set_latest_header, mix_randao, is_signed_by,
  process_block_header, process_randao,
}
use shasper.Executive.Operations.{outstanding_deposits, process_operations}
use shasper.Executive.Transition.{
  process_slot, advance_slot, slots_loop, process_slots, process_block, state_transition,
}
use shasper.Builder.{execute_block}
use shasper.Chain.{id, parent_id, justified_block_id, executor}
use shasper.Chain.Linked.{execute_block-id}
use shasper.Tests.Samples.{small, staked}

abbrev child : BeaconBlock
child = record {
  slot = 1;
  parent_root = le_bytes 32 1;
  state_root = le_bytes 32 2;
  body = default_body;
  signature = replicate 96 0;
}

abbrev after : BeaconState
after = (execute_block small bls_no_verification child staked).1

accepted : (execute_block small bls_no_verification child staked).0 ≡ ok tt
unfolding staked initial_state pure reads gets require modify ◌>>=◌ when for_each modify_validator
    modify_balance commit current_epoch previous_epoch randao_mix active_validator_indices
    active_validator_len seed committee_count_at_slot beacon_committee proposer_loop
    beacon_proposer_index domain shuffled_index shuffle_rounds shuffle_round shuffle_bit flip_index
    to_uint to_bytes bls_domain compute_committee add_eth1_vote process_eth1_data set_latest_header
    mix_randao is_signed_by process_block_header process_randao outstanding_deposits
    process_operations process_slot advance_slot slots_loop process_slots process_block
    state_transition execute_block
accepted = refl

-- The next block has the block of slot 1 as its parent.
execute_block-id_example :
    small.hasher.header_root (signing_header (process_slot small after).latest_block_header)
    ≡ id small child
execute_block-id_example =
    execute_block-id small bls_no_verification child staked after (ap (λ r. (r, after)) accepted)

parent_named : parent_id child ≡ some (le_bytes 32 1)
unfolding parent_id
parent_named = refl

nothing_justified : (executor small bls_no_verification).justified_block_id staked ≡ ok none
unfolding executor justified_block_id staked initial_state
nothing_justified = refl
