-- ===== src/Executive/Epoch/Deltas.antt =====
-- `base_reward` and `attestation_deltas` of beacon/src/executive/transition/per_epoch/reward.rs.
use shasper.Prelude.{
  ℕ, ◌/◌, ◌&&◌, ◌||◌, List, [], ◌∷◌, if◌then◌else◌, ltb, length, replicate, positions, contains,
  add64, sub64, mul64,
}
use shasper.Types.{BeaconState, PendingAttestation, is_active}
use shasper.Outcome.{Outcome, ok, ◌>>=◌, index, update, checked_div, try_fold}
use shasper.Config.{Config}
use shasper.Utils.{integer_squareroot, base_rewards_per_epoch}
use shasper.Executive.Accessors.{
  previous_epoch, attesting_indices, total_balance, total_active_balance,
}
use shasper.Executive.Epoch.Helpers.{
  matching_source_attestations, matching_target_attestations, matching_head_attestations,
  unslashed_attesting_indices,
}

-- `values[i] += delta`
unfoldable pub add_at : List ℕ → ℕ → ℕ → Outcome (List ℕ)
add_at values i delta = index values i >>= λ old. update values i (add64 old delta)

-- The two vectors that `attestation_deltas` fills.
pub record Deltas : Type 0 where
  pub rewards : List ℕ
  pub penalties : List ℕ

unfoldable pub reward : Deltas → ℕ → ℕ → Outcome Deltas
reward d i delta = add_at d.rewards i delta >>= λ r. ok (record d { rewards = r })

unfoldable pub penalise : Deltas → ℕ → ℕ → Outcome Deltas
penalise d i delta = add_at d.penalties i delta >>= λ p. ok (record d { penalties = p })

-- `fold(first, |a, b| if a.inclusion_delay < b.inclusion_delay { a } else { b })`
unfoldable pub min_inclusion_delay :
    PendingAttestation → List PendingAttestation → PendingAttestation
min_inclusion_delay a [] = a
min_inclusion_delay a (b ∷ bs) =
    min_inclusion_delay (if ltb a.inclusion_delay b.inclusion_delay then a else b) bs

module _ (C : Config) where
  unfoldable pub base_reward : BeaconState → ℕ → Outcome ℕ
  base_reward s i = do
    total ← total_active_balance C s
    validator ← index s.validators i
    root ← integer_squareroot total
    quotient ← checked_div (mul64 validator.effective_balance C.base_reward_factor) root
    ok (quotient / base_rewards_per_epoch)

  unfoldable pub eligible_validator_indices : BeaconState → List ℕ
  eligible_validator_indices s =
      positions
        (λ v.
          is_active v (previous_epoch C s)
          || (v.slashed && ltb (add64 (previous_epoch C s) 1) v.withdrawable_epoch))
        0 s.validators

  -- Micro-incentives of one kind: source, target or head.
  unfoldable pub micro_incentives :
      BeaconState → ℕ → Deltas → List PendingAttestation → Outcome Deltas
  micro_incentives s total deltas attestations = do
    attesting ← unslashed_attesting_indices C s attestations
    balance ← total_balance C s attesting
    try_fold
        (λ d i. base_reward s i >>= λ base.
          if contains attesting i
          then reward d i (mul64 base balance / total)
          else penalise d i base)
        deltas (eligible_validator_indices s)

  -- The attestations that hold the validator.
  unfoldable pub attestations_of :
      BeaconState → ℕ → List PendingAttestation → Outcome (List PendingAttestation)
  attestations_of s i [] = ok []
  attestations_of s i (a ∷ as') = do
    indices ← attesting_indices C s a.att_data a.aggregation_bits
    rest ← attestations_of s i as'
    ok (if contains indices i then a ∷ rest else rest)

  -- The proposer and inclusion delay rewards for one attester.
  unfoldable pub inclusion_reward :
      BeaconState → List PendingAttestation → Deltas → ℕ → Outcome Deltas
  inclusion_reward s attestations deltas i = do
    own ← attestations_of s i attestations
    first ← index attestations 0
    let attestation = min_inclusion_delay first own
    base ← base_reward s i
    let proposer_reward = base / C.proposer_reward_quotient
    rewarded ← reward deltas attestation.proposer_index proposer_reward
    let max_attester_reward = sub64 base proposer_reward
    share ← checked_div max_attester_reward attestation.inclusion_delay
    reward rewarded i share

  -- The inactivity penalty of one eligible validator.
  unfoldable pub inactivity_penalty : BeaconState → ℕ → List ℕ → Deltas → ℕ → Outcome Deltas
  inactivity_penalty s finality_delay target_indices deltas i = do
    base ← base_reward s i
    penalised ← penalise deltas i (mul64 base_rewards_per_epoch base)
    validator ← index s.validators i
    if contains target_indices i
        then ok penalised
        else penalise penalised i
            (mul64 validator.effective_balance finality_delay / C.inactivity_penalty_quotient)

  unfoldable pub attestation_deltas : BeaconState → Outcome Deltas
  attestation_deltas s = do
    let epoch = previous_epoch C s
    total ← total_active_balance C s
    let zeros = replicate (length s.validators) 0
    source ← matching_source_attestations C s epoch
    target ← matching_target_attestations C s epoch
    head ← matching_head_attestations C s epoch
    incentives ←
        try_fold (micro_incentives s total) (record { rewards = zeros; penalties = zeros })
          (source ∷ target ∷ head ∷ [])
    attesting ← unslashed_attesting_indices C s source
    included ← try_fold (inclusion_reward s source) incentives attesting
    let finality_delay = sub64 epoch s.finalized_checkpoint.epoch
    if ltb C.min_epochs_to_inactivity_penalty finality_delay
        then (unslashed_attesting_indices C s target >>= λ target_indices.
            try_fold (inactivity_penalty s finality_delay target_indices) included
              (eligible_validator_indices s))
        else ok included
