-- ===== src/Tests/Slots.antt =====
-- Runs of the state transition.
use shasper.Prelude.{◌≤◌, ◌≡◌, refl, ap, arith, none}
use shasper.Types.{Block, default_body, zero_hash}
use shasper.Config.{bls_no_verification}
use shasper.Outcome.{ok}
use shasper.Outcome.Ends.{Ends}
use shasper.Genesis.{initial_state, genesis_beacon_state, activate_at_genesis}
use shasper.Executive.Operations.Registry.{
  new_validator, add_validator, deposit_new, process_deposit, find_pubkey,
}
use shasper.Utils.{is_valid_merkle_branch, bls_domain}
use shasper.Executive.Accessors.{domain}
use shasper.Prelude.{replicate, ◌∷◌}
use shasper.Types.{Deposit, BeaconState}
use shasper.Executive.Monad.{require}
use shasper.Genesis.Shape.{genesis_beacon_state-IsShaped}
use shasper.Executive.Transition.History.{processed, process_slot-history}
use shasper.Types.{Eth1Data, signing_header}
use shasper.Prelude.{[]}
use shasper.Executive.Monad.{
  pure, reads, gets, require, modify, ◌>>=◌, when, for_each, modify_validator, modify_balance,
  commit,
}
use shasper.Executive.Accessors.{
  select_bits, current_epoch, previous_epoch, block_root_at_slot, block_root, randao_mix,
  active_validator_indices, active_validator_len, validator_churn_limit, seed,
  committee_count_at_slot, beacon_committee, proposer_loop, beacon_proposer_index, sum_balances,
  total_balance, total_active_balance, domain, attesting_indices, indexed_attestation,
}
use shasper.Executive.Mutators.{
  increase_balance, decrease_balance, last_exit_epoch, exit_queue_epoch, initiate_validator_exit,
  add_slashing, slash_validator,
}
use shasper.Executive.Epoch.{process_epoch}
use shasper.Executive.Epoch.Helpers.{
  push_new, retain_unslashed, matching_source_attestations, matching_target_attestations,
  keep_matching_head, matching_head_attestations, collect_indices, unslashed_attesting_indices,
  attesting_balance,
}
use shasper.Executive.Epoch.Justification.{
  justifier_of, with_justifier, justifier_registry, justified_state,
  process_justification_and_finalization,
}
use shasper.Executive.Epoch.Deltas.{
  add_at, reward, penalise, min_inclusion_delay, base_reward, eligible_validator_indices,
  micro_incentives, attestations_of, inclusion_reward, inactivity_penalty, attestation_deltas,
}
use shasper.Executive.Epoch.Reward.{apply_deltas, process_rewards_and_penalties}
use shasper.Executive.Epoch.Registry.{
  insert_by, sort_by_key, eligibility, update_eligibility, activation_queue, activate,
  process_registry_updates,
}
use shasper.Executive.Epoch.Slashing.{
  sum_slashings, slashing_penalty, is_penalty_due, process_slashing, process_slashings,
}
use shasper.Executive.Epoch.Finalize.{
  update_effective_balance, update_effective_balances, rotate, reset_eth1_votes,
  process_final_updates,
}
use shasper.Justifier.{all_set, shift_bits, justify, finalize, process}
use shasper.Executive.Transition.{
  process_slot, advance_slot, slots_loop, process_slots, process_block, state_transition,
}
use shasper.Executive.Transition.Slot.{process_slots-reaches}
use shasper.Executive.Transition.Finality.{InOrder, process_slots-InOrder}
use shasper.Executive.Transition.Ends.{process_slots-Ends}
use shasper.Executive.Shape.{IsShaped}
use shasper.Executive.Shape.Run.{state_transition-IsShaped}
use shasper.Tests.Samples.{small, late_state}

late_state-IsShaped : IsShaped small late_state
unfolding late_state initial_state
late_state-IsShaped = omega arith

abbrev next_block : Block
next_block = record {
  slot = 41;
  parent_root = zero_hash;
  state_root = zero_hash;
  body = default_body;
  signature = none;
}

state_transition-IsShaped_example :
    IsShaped small (state_transition small bls_no_verification next_block late_state).1
state_transition-IsShaped_example =
    state_transition-IsShaped small bls_no_verification next_block late_state late_state-IsShaped

late_state-InOrder : InOrder small late_state
unfolding late_state initial_state justifier_of
late_state-InOrder = omega arith

process_slots-Ends_example : Ends (process_slots small 41 late_state).0
process_slots-Ends_example = process_slots-Ends small 41 late_state (omega arith)

outcome : (process_slots small 41 late_state).0 ≡ ok tt
unfolding late_state initial_state pure reads gets require modify ◌>>=◌ when for_each
    modify_validator modify_balance commit select_bits current_epoch previous_epoch
    block_root_at_slot block_root randao_mix active_validator_indices active_validator_len
    validator_churn_limit seed committee_count_at_slot beacon_committee proposer_loop
    beacon_proposer_index sum_balances total_balance total_active_balance domain attesting_indices
    indexed_attestation increase_balance decrease_balance last_exit_epoch exit_queue_epoch
    initiate_validator_exit add_slashing slash_validator process_epoch push_new retain_unslashed
    matching_source_attestations matching_target_attestations keep_matching_head
    matching_head_attestations collect_indices unslashed_attesting_indices attesting_balance
    justifier_of with_justifier justifier_registry justified_state
    process_justification_and_finalization add_at reward penalise min_inclusion_delay base_reward
    eligible_validator_indices micro_incentives attestations_of inclusion_reward inactivity_penalty
    attestation_deltas apply_deltas process_rewards_and_penalties insert_by sort_by_key eligibility
    update_eligibility activation_queue activate process_registry_updates sum_slashings
    slashing_penalty is_penalty_due process_slashing process_slashings update_effective_balance
    update_effective_balances rotate reset_eth1_votes process_final_updates all_set shift_bits
    justify finalize process process_slot advance_slot slots_loop process_slots process_block
    state_transition
outcome = refl

finalized : (process_slots small 41 late_state).1.finalized_checkpoint.epoch ≡ 3
unfolding late_state initial_state pure reads gets require modify ◌>>=◌ when for_each
    modify_validator modify_balance commit select_bits current_epoch previous_epoch
    block_root_at_slot block_root randao_mix active_validator_indices active_validator_len
    validator_churn_limit seed committee_count_at_slot beacon_committee proposer_loop
    beacon_proposer_index sum_balances total_balance total_active_balance domain attesting_indices
    indexed_attestation increase_balance decrease_balance last_exit_epoch exit_queue_epoch
    initiate_validator_exit add_slashing slash_validator process_epoch push_new retain_unslashed
    matching_source_attestations matching_target_attestations keep_matching_head
    matching_head_attestations collect_indices unslashed_attesting_indices attesting_balance
    justifier_of with_justifier justifier_registry justified_state
    process_justification_and_finalization add_at reward penalise min_inclusion_delay base_reward
    eligible_validator_indices micro_incentives attestations_of inclusion_reward inactivity_penalty
    attestation_deltas apply_deltas process_rewards_and_penalties insert_by sort_by_key eligibility
    update_eligibility activation_queue activate process_registry_updates sum_slashings
    slashing_penalty is_penalty_due process_slashing process_slashings update_effective_balance
    update_effective_balances rotate reset_eth1_votes process_final_updates all_set shift_bits
    justify finalize process process_slot advance_slot slots_loop process_slots process_block
    state_transition
finalized = refl

run : process_slots small 41 late_state ≡ (ok tt, (process_slots small 41 late_state).1)
run = ap (λ r. (r, (process_slots small 41 late_state).1)) outcome

process_slots-reaches_example : (39 ≤ 41) × ((process_slots small 41 late_state).1.slot ≡ 41)
unfolding late_state
process_slots-reaches_example =
    process_slots-reaches small 41 late_state (process_slots small 41 late_state).1 (omega arith)
      run

process_slots-InOrder_example :
    InOrder small (process_slots small 41 late_state).1
    × (1 ≤ (process_slots small 41 late_state).1.finalized_checkpoint.epoch)
unfolding late_state
process_slots-InOrder_example =
    process_slots-InOrder small (omega arith) (omega arith) 41 late_state
      (process_slots small 41 late_state).1 (omega arith) late_state-InOrder run

process_slot-history_example :
    (block_root_at_slot small (processed small late_state) 39
      ≡ ok (
          small.hasher.header_root
            (signing_header (process_slot small late_state).latest_block_header)))
    × (block_root_at_slot small (processed small late_state) 8
        ≡ block_root_at_slot small late_state 8)
unfolding late_state
process_slot-history_example =
    process_slot-history small late_state 8 late_state-IsShaped (omega arith) (omega arith)
      (omega arith) (omega arith)

abbrev no_eth1 : Eth1Data
no_eth1 = record { deposit_root = zero_hash; deposit_count = 0; block_hash = zero_hash }

-- A deposit of a full stake, and the state with its validator, who is active from the start.
abbrev stake : Deposit
stake = record {
  proof = replicate 33 zero_hash;
  deposit_data = record {
    pubkey = replicate 48 1;
    withdrawal_credentials = zero_hash;
    amount = 32000000000;
    signature = replicate 96 0;
  };
}

unfoldable genesis_state : BeaconState
unfolding initial_state new_validator activate_at_genesis
genesis_state = record (initial_state small 0 no_eth1) {
  eth1_deposit_index = 1;
  validators = activate_at_genesis small (new_validator small stake.deposit_data) ∷ [];
  balances = 32000000000 ∷ [];
}

genesis_run :
    genesis_beacon_state small bls_no_verification (stake ∷ []) 0 no_eth1 ≡ ok genesis_state
unfolding genesis_state genesis_beacon_state initial_state for_each pure activate_at_genesis
    new_validator add_validator deposit_new process_deposit find_pubkey is_valid_merkle_branch
    domain bls_domain current_epoch ◌>>=◌ gets modify require
genesis_run = refl

genesis_beacon_state-IsShaped_example :
    IsShaped small genesis_state × (genesis_state.slot ≡ 0) × InOrder small genesis_state
genesis_beacon_state-IsShaped_example =
    genesis_beacon_state-IsShaped small bls_no_verification (stake ∷ []) 0 no_eth1 genesis_state
      genesis_run
