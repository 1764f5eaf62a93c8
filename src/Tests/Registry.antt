-- ===== src/Tests/Registry.antt =====
-- Exits, slashings and balances on concrete inputs.
use shasper.Prelude.{
  ℕ, ◌+◌, ◌*◌, ◌/◌, ◌≤◌, ◌≡◌, ◌⊎◌, refl, ap, arith, [], ◌∷◌, true, replicate, set, count, add64,
  ◌==◌,
}
use shasper.Types.{
  BeaconState, Validator, ProposerSlashing, BeaconBlockHeader, PendingAttestation, zero_hash,
}
use shasper.Outcome.{ok, err, proposer_slashing_already_slashed}
use shasper.Config.{bls_no_verification}
use shasper.Utils.{activation_exit_epoch}
use shasper.Genesis.{initial_state}
use shasper.Executive.Monad.{
  pure, reads, gets, require, modify, ◌>>=◌, when, for_each, modify_validator, modify_balance,
  commit,
}
use shasper.Executive.Accessors.{
  select_bits, current_epoch, previous_epoch, block_root_at_slot, block_root, randao_mix,
  active_validator_indices, active_validator_len, validator_churn_limit, seed,
  committee_count_at_slot, beacon_committee, proposer_loop, beacon_proposer_index, sum_balances,
  total_balance, total_active_balance, domain, attesting_indices, indexed_attestation,
}
use shasper.Executive.Mutators.{
  increase_balance, decrease_balance, last_exit_epoch, exit_queue_epoch, initiate_validator_exit,
  add_slashing, slash_rewards, slash_validator,
}
use shasper.Executive.Operations.Slashings.{
  is_header_signed, process_proposer_slashing, slash_each, process_attester_slashing,
}
use shasper.Utils.{
  shuffled_index, shuffle_rounds, shuffle_round, shuffle_bit, flip_index, to_uint, to_bytes,
  bls_domain,
}
use shasper.Executive.Epoch.Finalize.{update_effective_balance}
use shasper.Executive.Epoch.Hysteresis.{update_effective_balance-near}
use shasper.Executive.Epoch.Deltas.{min_inclusion_delay}
use shasper.Executive.Epoch.Inclusion.{LastLeast, min_inclusion_delay-LastLeast}
use shasper.Executive.Mutators.Exit.{initiate_validator_exit-churn}
use shasper.Executive.Operations.Once.{process_proposer_slashing-once}
use shasper.Tests.Samples.{small, checkpoint_at, staker, staked}

abbrev header : ℕ → BeaconBlockHeader
header n = record {
  slot = 0;
  parent_root = replicate 32 n;
  state_root = zero_hash;
  body_root = zero_hash;
  signature = replicate 96 0;
}

abbrev double_proposal : ProposerSlashing
double_proposal = record { proposer_index = 0; header_1 = header 1; header_2 = header 2 }

abbrev slashed_state : BeaconState
slashed_state = (process_proposer_slashing small bls_no_verification double_proposal staked).1

slashing : (process_proposer_slashing small bls_no_verification double_proposal staked).0 ≡ ok tt
unfolding staked initial_state pure reads gets require modify ◌>>=◌ when for_each modify_validator
    modify_balance commit select_bits current_epoch previous_epoch block_root_at_slot block_root
    randao_mix active_validator_indices active_validator_len validator_churn_limit seed
    committee_count_at_slot beacon_committee proposer_loop beacon_proposer_index sum_balances
    total_balance total_active_balance domain attesting_indices indexed_attestation increase_balance
    decrease_balance last_exit_epoch exit_queue_epoch initiate_validator_exit add_slashing
    slash_rewards slash_validator is_header_signed process_proposer_slashing slash_each
    process_attester_slashing shuffled_index shuffle_rounds shuffle_round shuffle_bit flip_index
    to_uint to_bytes bls_domain
slashing = refl

slashing_run :
    process_proposer_slashing small bls_no_verification double_proposal staked
    ≡ (ok tt, slashed_state)
slashing_run = ap (λ r. (r, slashed_state)) slashing

process_proposer_slashing-once_example :
    process_proposer_slashing small bls_no_verification double_proposal slashed_state
    ≡ (err proposer_slashing_already_slashed, slashed_state)
process_proposer_slashing-once_example =
    process_proposer_slashing-once small bls_no_verification double_proposal double_proposal staked
      slashed_state slashing_run refl refl refl

abbrev exited : ℕ → Validator
exited e = record staker {
  exit_epoch = e;
  withdrawable_epoch = add64 e small.min_validator_withdrawability_delay;
}

initiate_validator_exit-churn_example :
    (e : ℕ) × (s' : BeaconState) × (initiate_validator_exit small 0 staked ≡ (ok tt, s'))
    × (s' ≡ record staked { validators = set staked.validators 0 (exited e) })
    × (activation_exit_epoch small (current_epoch small staked) ≤ e)
    × (count (λ x. x.exit_epoch == e) s'.validators ≤ validator_churn_limit small staked)
unfolding staked initial_state last_exit_epoch current_epoch
initiate_validator_exit-churn_example =
    initiate_validator_exit-churn small staked 0 staker (omega arith) (omega arith) refl refl

update_effective_balance-near_example :
    ((update_effective_balance small staker 30700000000).effective_balance ≤ 30700000000)
    × ((30700000000
          ≤ (update_effective_balance small staker 30700000000).effective_balance
            + 3 * (1000000000 / 2))
        ⊎ ((update_effective_balance small staker 30700000000).effective_balance ≡ 32000000000))
update_effective_balance-near_example =
    update_effective_balance-near small staker 30700000000 (omega arith) (omega arith)

abbrev included : ℕ → PendingAttestation
included delay = record {
  aggregation_bits = true ∷ [];
  att_data = record {
    slot = 0;
    index = 0;
    beacon_block_root = zero_hash;
    source = checkpoint_at 0;
    target = checkpoint_at 0;
  };
  inclusion_delay = delay;
  proposer_index = 0;
}

min_inclusion_delay-LastLeast_example :
    LastLeast
      (included 5 ∷ included 2 ∷ included 3 ∷ [])
      (min_inclusion_delay (included 5) (included 2 ∷ included 3 ∷ []))
min_inclusion_delay-LastLeast_example =
    min_inclusion_delay-LastLeast (included 2 ∷ included 3 ∷ []) (included 5)
