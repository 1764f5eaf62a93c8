-- ===== src/Executive/Accessors.antt =====
-- beacon/src/executive/helpers/accessors.rs, and assignment.rs and choice.rs of beacon/src/executive.
-- A `VecArray` is read at a remainder by its length, and a list of the registry at any index, with a
-- panic where that is out of range.
use shasper.Prelude.{
  ℕ, zero, suc, ◌-◌, ◌/◌, ◌%◌, min, max, Bool, not, ◌&&◌, Option, none, some, List, [], ◌∷◌, ◌++◌,
  if◌then◌else◌, ◌==◌, ltb, leb, length, get_or, take, keep, positions, contains, sort, Bytes,
  le_bytes, add64, sub64, mul64, u64_mod,
}
use shasper.Types.{
  BeaconState, Validator, Attestation, AttestationData, IndexedAttestation, is_active, zero_hash,
}
use shasper.Outcome.{
  Outcome, ok, panic, diverge, ◌>>=◌, ◌>>◌, require, index, checked_rem, slot_out_of_range,
  attestation_bit_field_invalid,
}
use shasper.Config.{Config, domain_beacon_attester, domain_beacon_proposer}
use shasper.Utils.{
  hash, epoch_of_slot, start_slot_of_epoch, shuffled_index, compute_committee, bls_domain, to_bytes,
}

-- The entries whose bit is set; an entry with no bit is a panic.
unfoldable pub select_bits : List ℕ → List Bool → Outcome (List ℕ)
select_bits [] bits = ok []
select_bits (v ∷ vs) [] = panic
select_bits (v ∷ vs) (bit ∷ bits) =
    select_bits vs bits >>= λ rest. ok (if bit then v ∷ rest else rest)

-- `saturating_sub`.
abbrev pub saturating_sub : ℕ → ℕ → ℕ
saturating_sub a b = a - b

module _ (C : Config) where
  unfoldable pub current_epoch : BeaconState → ℕ
  current_epoch s = epoch_of_slot C s.slot

  unfoldable pub previous_epoch : BeaconState → ℕ
  previous_epoch s =
      if current_epoch s == C.genesis_epoch
      then C.genesis_epoch
      else saturating_sub (current_epoch s) 1

  unfoldable pub block_root_at_slot : BeaconState → ℕ → Outcome Bytes
  block_root_at_slot s slot =
      require (ltb slot s.slot && leb s.slot (add64 slot C.slots_per_historical_root))
        slot_out_of_range
      >> ok (get_or s.block_roots (slot % C.slots_per_historical_root) zero_hash)

  unfoldable pub block_root : BeaconState → ℕ → Outcome Bytes
  block_root s epoch = block_root_at_slot s (start_slot_of_epoch C epoch)

  unfoldable pub randao_mix : BeaconState → ℕ → Bytes
  randao_mix s epoch = get_or s.randao_mixes (epoch % C.epochs_per_historical_vector) zero_hash

  unfoldable pub active_validator_indices : BeaconState → ℕ → List ℕ
  active_validator_indices s epoch = positions (λ v. is_active v epoch) 0 s.validators

  unfoldable pub active_validator_len : BeaconState → ℕ → ℕ
  active_validator_len s epoch = length (active_validator_indices s epoch)

  unfoldable pub validator_churn_limit : BeaconState → ℕ
  validator_churn_limit s =
      max C.min_per_epoch_churn_limit
        (active_validator_len s (current_epoch s) / C.churn_limit_quotient)

  unfoldable pub seed : BeaconState → ℕ → ℕ → Bytes
  seed s epoch domain_type = hash C (
      le_bytes 4 domain_type
      ++ le_bytes 8 epoch
      ++ randao_mix s
          (sub64 (sub64 (add64 epoch C.epochs_per_historical_vector) C.min_seed_lookahead) 1))

  unfoldable pub committee_count_at_slot : BeaconState → ℕ → ℕ
  committee_count_at_slot s slot = max 1 (
      min C.max_committees_per_slot (
        active_validator_len s (epoch_of_slot C slot)
        / C.slots_per_epoch
        / C.target_committee_size))

  unfoldable pub beacon_committee : BeaconState → ℕ → ℕ → Outcome (List ℕ)
  beacon_committee s slot committee =
      let epoch = epoch_of_slot C slot in
      let committees_per_slot = committee_count_at_slot s slot in
      compute_committee C (active_validator_indices s epoch) (seed s epoch domain_beacon_attester)
        (add64 (mul64 (slot % C.slots_per_epoch) committees_per_slot) committee)
        (mul64 committees_per_slot C.slots_per_epoch)

  -- The loop of `beacon_proposer_index` from the candidate number `i` on.
  unfoldable pub proposer_loop : List Validator → List ℕ → Bytes → ℕ → ℕ → Outcome ℕ
  proposer_loop validators indices seed zero i = diverge
  proposer_loop validators indices seed (suc fuel) i =
      let rest = proposer_loop validators indices seed fuel (add64 i 1) in
      checked_rem i (length indices) >>= λ candidate_number.
      shuffled_index C candidate_number (length indices) seed >>= λ k.
      index indices k >>= λ candidate_index. index validators candidate_index >>= λ candidate.
      let random_byte = get_or (hash C (seed ++ take 8 (to_bytes (i / 32)))) (i % 32) 0 in
      if leb (mul64 C.max_effective_balance random_byte) (mul64 candidate.effective_balance 255)
      then ok candidate_index
      else rest

  -- After 2 ^ 64 rounds `i` is back at 0, so that a loop which has not ended by then never does.
  unfoldable pub beacon_proposer_index : BeaconState → Outcome ℕ
  beacon_proposer_index s =
      let epoch = current_epoch s in
      let seed = hash C (seed s epoch domain_beacon_proposer ++ le_bytes 8 s.slot) in
      proposer_loop s.validators (active_validator_indices s epoch) seed u64_mod 0

  -- `fold(0, |sum, index| sum + self.validators[*index].effective_balance)`
  unfoldable pub sum_balances : List Validator → ℕ → List ℕ → Outcome ℕ
  sum_balances validators sum [] = ok sum
  sum_balances validators sum (i ∷ indices) =
      index validators i >>= λ v. sum_balances validators (add64 sum v.effective_balance) indices

  unfoldable pub total_balance : BeaconState → List ℕ → Outcome ℕ
  total_balance s indices = sum_balances s.validators 0 indices >>= λ sum. ok (max sum 1)

  unfoldable pub total_active_balance : BeaconState → Outcome ℕ
  total_active_balance s = total_balance s (active_validator_indices s (current_epoch s))

  unfoldable pub domain : BeaconState → ℕ → Option ℕ → ℕ
  domain s domain_type message_epoch =
      let epoch : ℕ = elim message_epoch [ none ↦ current_epoch s | some e ↦ e ] in
      bls_domain domain_type
        (if ltb epoch s.fork.epoch then s.fork.previous_version else s.fork.current_version)

  unfoldable pub attesting_indices : BeaconState → AttestationData → List Bool → Outcome (List ℕ)
  attesting_indices s att_data bitfield = do
    committee ← beacon_committee s att_data.slot att_data.index
    require (length committee == length bitfield) attestation_bit_field_invalid
    chosen ← select_bits committee bitfield
    ok (sort chosen)

  unfoldable pub indexed_attestation : BeaconState → Attestation → Outcome IndexedAttestation
  indexed_attestation s attestation = do
    indices ← attesting_indices s attestation.att_data attestation.aggregation_bits
    custody_bit_1_indices ← attesting_indices s attestation.att_data attestation.custody_bits
    ok (record {
      custody_bit_0_indices = keep (λ i. not (contains custody_bit_1_indices i)) indices;
      custody_bit_1_indices = custody_bit_1_indices;
      att_data = attestation.att_data;
      signature = attestation.signature;
    })
