-- ===== src/Pallet/Session.antt =====
-- The handler of a new session (substrate/casper/pallet/src/lib.rs): it justifies and finalizes epochs
-- by the weight of the attestations, and starts the next epoch. Weights and epochs are `u64` and wrap.
use shasper.Prelude.{
  ℕ, ◌==◌, Bool, true, ◌&&◌, List, [], ◌∷◌, ◌++◌, if◌then◌else◌, leb, set, take, map, add64, mul64,
  Bytes, bytes_eq,
}
use shasper.Results.{Result, ok, index, update, ◌>>=◌}
use shasper.Justifier.{all_set}
use shasper.Pallet.{Casper, Attestation, Host, Refusal}

-- `validators.iter().fold(0, |acc, v| acc + v.1)`
unfoldable pub total_balance : ℕ → List (Bytes × ℕ) → ℕ
total_balance acc [] = acc
total_balance acc ((k, w) ∷ vs) = total_balance (add64 acc w) vs

-- `validators.iter().find(|v| v.0 == id).map(|v| v.1).unwrap_or(0)`
unfoldable pub validator_weight : Bytes → List (Bytes × ℕ) → ℕ
validator_weight key [] = 0
validator_weight key ((k, w) ∷ vs) = if bytes_eq k key then w else validator_weight key vs

-- The fold over the attestations that sums up the weights of their validators.
unfoldable pub matching_target_balance : List (Bytes × ℕ) → ℕ → List Attestation → ℕ
unfolding validator_weight
matching_target_balance validators acc [] = acc
matching_target_balance validators acc (a ∷ rest) =
    matching_target_balance validators (add64 acc (validator_weight a.validator_id validators)) rest

-- `balance * 3 >= total * 2`
abbrev pub reaches : ℕ → ℕ → Bool
reaches balance total = leb (mul64 total 2) (mul64 balance 3)

-- `justification_bits[1..].copy_from_slice(&old[0..3])`: the first bit stays as it was.
unfoldable pub shift_from_second : List Bool → List Bool
shift_from_second bits = take 1 bits ++ take 3 bits

-- The first half: the epochs that become justified.
unfoldable pub justify_session : Bool → Bool → Casper → Casper
unfolding shift_from_second
justify_session previous_reached current_reached s =
    let bits_0 = shift_from_second s.justification_bits in
    let epoch_1 = if previous_reached then s.previous_epoch else s.current_justified_epoch in
    let number_1 =
      if previous_reached then s.previous_epoch_number else s.current_justified_epoch_number in
    let bits_1 = if previous_reached then set bits_0 1 true else bits_0 in
    record s {
      justification_bits = if current_reached then set bits_1 0 true else bits_1;
      previous_justified_epoch = s.current_justified_epoch;
      previous_justified_epoch_number = s.current_justified_epoch_number;
      current_justified_epoch = if current_reached then s.current_epoch else epoch_1;
      current_justified_epoch_number = if current_reached then s.current_epoch_number else number_1;
    }

-- One of the four tests: it finalizes an old justified epoch where the bits are set and it is `ago`
-- epochs before the current one.
unfoldable pub finalize_when : ℕ → ℕ → ℕ → ℕ → ℕ → Casper → Casper
unfolding all_set
finalize_when from n ago epoch number s =
    if all_set s.justification_bits from n && (add64 epoch ago == s.current_epoch)
    then record s { finalized_epoch = epoch; finalized_epoch_number = number }
    else s

-- The second half: the four tests in their order, on the epochs that were justified before.
unfoldable pub finalize_session : ℕ → ℕ → ℕ → ℕ → Casper → Casper
unfolding finalize_when
finalize_session previous previous_number current current_number s =
    let s_1 = finalize_when 1 3 3 previous previous_number s in
    let s_2 = finalize_when 1 2 2 previous previous_number s_1 in
    let s_3 = finalize_when 0 3 2 current current_number s_2 in
    finalize_when 0 2 1 current current_number s_3

module _ (host : Host) where
  -- The end: the attestations go, and the next epoch starts, with the new validators of weight one.
  unfoldable pub start_epoch : Bool → List Bytes → Casper → Casper
  start_epoch changed new_validators s = record s {
    previous_epoch_attestations = [];
    current_epoch_attestations = [];
    validators = if changed then map (λ key. (key, 1)) new_validators else s.validators;
    previous_epoch = s.current_epoch;
    previous_epoch_number = s.current_epoch_number;
    current_epoch = add64 s.current_epoch 1;
    current_epoch_number = host.block_number;
  }

  unfoldable pub on_new_session : Bool → List Bytes → Casper → Casper
  unfolding total_balance matching_target_balance justify_session finalize_session start_epoch
  on_new_session changed new_validators s =
      let total = total_balance 0 s.validators in
      let previous = matching_target_balance s.validators 0 s.previous_epoch_attestations in
      let current = matching_target_balance s.validators 0 s.current_epoch_attestations in
      let justified = justify_session (reaches previous total) (reaches current total) s in
      start_epoch changed new_validators (
        finalize_session s.previous_justified_epoch s.previous_justified_epoch_number
          s.current_justified_epoch s.current_justified_epoch_number justified)

-- It panics where there is no validator at the index.
unfoldable pub on_disabled : ℕ → Casper → Result Refusal Casper
on_disabled i s = index s.validators i >>= λ v.
    update s.validators i (v.0, 0) >>= λ validators. ok (record s { validators = validators })
