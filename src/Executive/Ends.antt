-- ===== src/Executive/Ends.antt =====
-- The accessors and the epoch helpers that fail, and never loop.
use shasper.Prelude.{
  ℕ, zero, suc, ◌<◌, ◌/◌, List, [], ◌∷◌, Bool, Bool-cases, inl, inr, add64, ltb, arith, Bytes,
}
use shasper.Types.{BeaconState, Validator, PendingAttestation, AttestationData}
use shasper.Outcome.Ends.{
  Ends, ends_rules, ok-Ends, bind-Ends, checked_div-Ends, index-Ends, panic-Ends,
}
use shasper.Config.{Config}
use shasper.Utils.{
  sqrt_loop, integer_squareroot, to_uint, shuffle_round, shuffle_rounds, shuffled_index,
  compute_committee,
}
use shasper.Executive.Accessors.{
  block_root_at_slot, block_root, beacon_committee, attesting_indices, select_bits, sum_balances,
  total_balance, total_active_balance,
}
use shasper.Executive.Epoch.Helpers.{
  push_new, retain_unslashed, matching_source_attestations, matching_target_attestations,
  keep_matching_head, matching_head_attestations, collect_indices, unslashed_attesting_indices,
  attesting_balance,
}

-- In each round of the loop `x` falls.
sqrt_loop-Ends : (fuel n x y : ℕ) → x < fuel → Ends (sqrt_loop fuel n x y)
unfolding sqrt_loop
sqrt_loop-Ends zero n x y h = absurd (omega arith)
sqrt_loop-Ends (suc fuel) n x y h = elim (Bool-cases (ltb y x)) [
  | inl falls ↦ rw falls (
      bind-Ends _ _ (checked_div-Ends n y)
        (λ q. sqrt_loop-Ends fuel n y (add64 y q / 2) (ground arith)))
  | inr there ↦ rw there (ok-Ends x)
]

pub integer_squareroot-Ends : (n : ℕ) → Ends (integer_squareroot n)
unfolding integer_squareroot
integer_squareroot-Ends n = sqrt_loop-Ends (suc n) n n _ (omega arith)

to_uint-Ends : (v : Bytes) → Ends (to_uint v)
unfolding to_uint
to_uint-Ends v = search ends_rules

select_bits-Ends : (xs : List ℕ) (bits : List Bool) → Ends (select_bits xs bits)
unfolding select_bits
select_bits-Ends [] bits = ok-Ends _
select_bits-Ends (x ∷ xs) [] = panic-Ends
select_bits-Ends (x ∷ xs) (b ∷ bits) = bind-Ends _ _ (select_bits-Ends xs bits) (λ rest. ok-Ends _)

retain_unslashed-Ends : (vs : List Validator) (is : List ℕ) → Ends (retain_unslashed vs is)
unfolding retain_unslashed
retain_unslashed-Ends vs [] = ok-Ends _
retain_unslashed-Ends vs (i ∷ is) =
    bind-Ends _ _ (index-Ends vs i)
      (λ v. bind-Ends _ _ (retain_unslashed-Ends vs is) (λ rest. ok-Ends _))

module _ (C : Config) where
  shuffle_round-Ends : (n : ℕ) (seed : Bytes) (round i : ℕ) → Ends (shuffle_round C n seed round i)
  unfolding shuffle_round
  shuffle_round-Ends n seed round i = search (ends_rules, to_uint-Ends) depth 9

  shuffle_rounds-Ends :
      (n : ℕ) (seed : Bytes) (k round i : ℕ) → Ends (shuffle_rounds C n seed k round i)
  unfolding shuffle_rounds
  shuffle_rounds-Ends n seed zero round i = ok-Ends _
  shuffle_rounds-Ends n seed (suc k) round i =
      bind-Ends _ _ (shuffle_round-Ends n seed round i)
        (λ next. shuffle_rounds-Ends n seed k _ next)

  shuffled_index-Ends : (i n : ℕ) (seed : Bytes) → Ends (shuffled_index C i n seed)
  unfolding shuffled_index
  shuffled_index-Ends i n seed = search (ends_rules, shuffle_rounds-Ends) depth 9

  compute_committee-Ends :
      (is : List ℕ) (seed : Bytes) (i count : ℕ) → Ends (compute_committee C is seed i count)
  unfolding compute_committee
  compute_committee-Ends is seed i count = search (ends_rules, shuffled_index-Ends) depth 12

  beacon_committee-Ends : (s : BeaconState) (slot i : ℕ) → Ends (beacon_committee C s slot i)
  unfolding beacon_committee
  beacon_committee-Ends s slot i = compute_committee-Ends _ _ _ _

  pub attesting_indices-Ends :
      (s : BeaconState) (d : AttestationData) (bits : List Bool)
      → Ends (attesting_indices C s d bits)
  unfolding attesting_indices
  attesting_indices-Ends s d bits =
      search (ends_rules, beacon_committee-Ends, select_bits-Ends) depth 12

  block_root_at_slot-Ends : (s : BeaconState) (slot : ℕ) → Ends (block_root_at_slot C s slot)
  unfolding block_root_at_slot
  block_root_at_slot-Ends s slot = search ends_rules

  pub block_root-Ends : (s : BeaconState) (epoch : ℕ) → Ends (block_root C s epoch)
  unfolding block_root
  block_root-Ends s epoch = block_root_at_slot-Ends s _

  sum_balances-Ends :
      (vs : List Validator) (is : List ℕ) (sum : ℕ) → Ends (sum_balances C vs sum is)
  unfolding sum_balances
  sum_balances-Ends vs [] sum = ok-Ends _
  sum_balances-Ends vs (i ∷ is) sum =
      bind-Ends _ _ (index-Ends vs i) (λ v. sum_balances-Ends vs is (add64 sum v.effective_balance))

  pub total_balance-Ends : (s : BeaconState) (is : List ℕ) → Ends (total_balance C s is)
  unfolding total_balance
  total_balance-Ends s is = search (ends_rules, sum_balances-Ends) depth 9

  pub total_active_balance-Ends : (s : BeaconState) → Ends (total_active_balance C s)
  unfolding total_active_balance
  total_active_balance-Ends s = total_balance-Ends s _

  pub source-Ends : (s : BeaconState) (epoch : ℕ) → Ends (matching_source_attestations C s epoch)
  unfolding matching_source_attestations
  source-Ends s epoch = search ends_rules

  pub target-Ends : (s : BeaconState) (epoch : ℕ) → Ends (matching_target_attestations C s epoch)
  unfolding matching_target_attestations
  target-Ends s epoch = search (ends_rules, block_root-Ends, source-Ends) depth 12

  keep_matching_head-Ends :
      (s : BeaconState) (xs : List PendingAttestation) → Ends (keep_matching_head C s xs)
  unfolding keep_matching_head
  keep_matching_head-Ends s [] = ok-Ends _
  keep_matching_head-Ends s (a ∷ xs) =
      bind-Ends _ _ (block_root_at_slot-Ends s _)
        (λ root. bind-Ends _ _ (keep_matching_head-Ends s xs) (λ rest. ok-Ends _))

  pub head-Ends : (s : BeaconState) (epoch : ℕ) → Ends (matching_head_attestations C s epoch)
  unfolding matching_head_attestations
  head-Ends s epoch = search (ends_rules, source-Ends, keep_matching_head-Ends) depth 12

  collect_indices-Ends :
      (s : BeaconState) (xs : List PendingAttestation) (ret : List ℕ)
      → Ends (collect_indices C s ret xs)
  unfolding collect_indices
  collect_indices-Ends s [] ret = ok-Ends _
  collect_indices-Ends s (a ∷ xs) ret =
      bind-Ends _ _ (attesting_indices-Ends s _ _)
        (λ is. collect_indices-Ends s xs (push_new ret is))

  pub unslashed-Ends :
      (s : BeaconState) (xs : List PendingAttestation) → Ends (unslashed_attesting_indices C s xs)
  unfolding unslashed_attesting_indices
  unslashed-Ends s xs = search (ends_rules, collect_indices-Ends, retain_unslashed-Ends) depth 12

  pub attesting_balance-Ends :
      (s : BeaconState) (xs : List PendingAttestation) → Ends (attesting_balance C s xs)
  unfolding attesting_balance
  attesting_balance-Ends s xs = search (ends_rules, unslashed-Ends, total_balance-Ends) depth 12
