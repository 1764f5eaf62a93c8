-- ===== src/Executive/Epoch/Ends.antt =====
-- The parts of beacon/src/executive/transition/per_epoch that read the state end.
use shasper.Prelude.{ℕ, List, [], ◌∷◌}
use shasper.Types.{BeaconState, PendingAttestation, Checkpoint}
use shasper.Outcome.Ends.{Ends, ends_rules, ok-Ends, bind-Ends, if-Ends}
use shasper.Config.{Config}
use shasper.Justifier.{Justifier, JustifierRegistry, process}
use shasper.Executive.Ends.{
  integer_squareroot-Ends, attesting_indices-Ends, block_root-Ends, total_balance-Ends,
  total_active_balance-Ends, source-Ends, target-Ends, head-Ends, unslashed-Ends,
  attesting_balance-Ends,
}
use shasper.Executive.Epoch.Justification.{justifier_registry, justified_state}
use shasper.Executive.Epoch.Deltas.{
  Deltas, add_at, reward, penalise, base_reward, micro_incentives, attestations_of,
  inclusion_reward, inactivity_penalty, attestation_deltas,
}

process-Ends :
    {A : Type 0} (epoch : A → ℕ) (j : Justifier A) (previous current : A)
    (registry : JustifierRegistry A)
    → ((a : A) → Ends (registry.attesting_target_balance a))
    → Ends registry.total_active_balance
    → Ends (process epoch j previous current registry)
unfolding process
process-Ends epoch j previous current registry k t = bind-Ends _ _ (k previous) λ b.
    bind-Ends _ _ t λ total. bind-Ends _ _ (k current) λ b'. bind-Ends _ _ t (λ total'. ok-Ends _)

add_at-Ends : (values : List ℕ) (i delta : ℕ) → Ends (add_at values i delta)
unfolding add_at
add_at-Ends values i delta = search ends_rules

reward-Ends : (d : Deltas) (i delta : ℕ) → Ends (reward d i delta)
unfolding reward
reward-Ends d i delta = search (ends_rules, add_at-Ends)

penalise-Ends : (d : Deltas) (i delta : ℕ) → Ends (penalise d i delta)
unfolding penalise
penalise-Ends d i delta = search (ends_rules, add_at-Ends)

module _ (C : Config) where
  target_balance-Ends :
      (s : BeaconState) (c : Checkpoint)
      → Ends ((justifier_registry C s).attesting_target_balance c)
  unfolding justifier_registry
  target_balance-Ends s c =
      bind-Ends _ _ (target-Ends C s c.epoch) (λ as'. attesting_balance-Ends C s as')

  total-Ends : (s : BeaconState) → Ends (justifier_registry C s).total_active_balance
  unfolding justifier_registry
  total-Ends s = total_active_balance-Ends C s

  pub justified_state-Ends : (s : BeaconState) → Ends (justified_state C s)
  unfolding justified_state
  justified_state-Ends s = if-Ends _ _ _ (ok-Ends s) (
      bind-Ends _ _ (block_root-Ends C s _) λ previous.
        bind-Ends _ _ (block_root-Ends C s _) λ current.
          bind-Ends _ _ (process-Ends _ _ _ _ _ (target_balance-Ends s) (total-Ends s))
            (λ j. ok-Ends _))

  base_reward-Ends : (s : BeaconState) (i : ℕ) → Ends (base_reward C s i)
  unfolding base_reward
  base_reward-Ends s i =
      search (ends_rules, total_active_balance-Ends C, integer_squareroot-Ends) depth 12

  micro_incentives-Ends :
      (s : BeaconState) (total : ℕ) (d : Deltas) (xs : List PendingAttestation)
      → Ends (micro_incentives C s total d xs)
  unfolding micro_incentives
  micro_incentives-Ends s total d xs =
      search
        (
          ends_rules,
          unslashed-Ends C,
          total_balance-Ends C,
          base_reward-Ends,
          reward-Ends,
          penalise-Ends,
        )
        depth 14

  attestations_of-Ends :
      (s : BeaconState) (i : ℕ) (xs : List PendingAttestation) → Ends (attestations_of C s i xs)
  unfolding attestations_of
  attestations_of-Ends s i [] = ok-Ends _
  attestations_of-Ends s i (a ∷ xs) =
      bind-Ends _ _ (attesting_indices-Ends C s _ _)
        (λ is. bind-Ends _ _ (attestations_of-Ends s i xs) (λ rest. ok-Ends _))

  inclusion_reward-Ends :
      (s : BeaconState) (xs : List PendingAttestation) (d : Deltas) (i : ℕ)
      → Ends (inclusion_reward C s xs d i)
  unfolding inclusion_reward
  inclusion_reward-Ends s xs d i =
      search (ends_rules, attestations_of-Ends, base_reward-Ends, reward-Ends) depth 14

  inactivity_penalty-Ends :
      (s : BeaconState) (delay : ℕ) (is : List ℕ) (d : Deltas) (i : ℕ)
      → Ends (inactivity_penalty C s delay is d i)
  unfolding inactivity_penalty
  inactivity_penalty-Ends s delay is d i =
      search (ends_rules, base_reward-Ends, penalise-Ends) depth 14

  pub attestation_deltas-Ends : (s : BeaconState) → Ends (attestation_deltas C s)
  unfolding attestation_deltas
  attestation_deltas-Ends s =
      search
        (
          ends_rules,
          total_active_balance-Ends C,
          source-Ends C,
          target-Ends C,
          head-Ends C,
          unslashed-Ends C,
          micro_incentives-Ends,
          inclusion_reward-Ends,
          inactivity_penalty-Ends,
        )
        depth 20
