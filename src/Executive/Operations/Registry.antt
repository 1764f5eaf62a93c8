-- ===== src/Executive/Operations/Registry.antt =====
-- deposit.rs and voluntary_exit.rs of beacon/src/executive/transition/per_block/operations.
use shasper.Prelude.{
  ℕ, suc, ◌+◌, ◌-◌, ◌%◌, min, false, Option, none, some, List, [], ◌∷◌, ◌++◌, if◌then◌else◌, ◌==◌,
  ltb, leb, length, Bytes, bytes_eq, add64,
}
use shasper.Types.{
  BeaconState, Validator, Deposit, DepositData, VoluntaryExit, is_active, signing_deposit_data,
  signing_exit,
}
use shasper.Outcome.{
  index, deposit_merkle_invalid, voluntary_exit_invalid_signature, voluntary_exit_already_initiated,
  voluntary_exit_already_exited, voluntary_exit_not_yet_valid, voluntary_exit_not_long_enough,
}
use shasper.Config.{Config, BlsConfig, domain_deposit, domain_voluntary_exit}
use shasper.Utils.{far_future_epoch, deposit_contract_tree_depth, is_valid_merkle_branch}
use shasper.Executive.Accessors.{current_epoch, domain}
use shasper.Executive.Mutators.{increase_balance, initiate_validator_exit}
use shasper.Executive.Monad.{M, ◌>>=◌, ◌>>◌, reads, gets, modify, require}

-- `position(|v| v == &pubkey)` over the keys of the registry, counting from `i`.
unfoldable pub find_pubkey : Bytes → ℕ → List Validator → Option ℕ
find_pubkey pubkey i [] = none
find_pubkey pubkey i (v ∷ vs) =
    if bytes_eq v.pubkey pubkey then some i else find_pubkey pubkey (suc i) vs

module _ (C : Config) where
  -- The validator that a deposit with a new key adds.
  unfoldable pub new_validator : DepositData → Validator
  new_validator d = record {
    pubkey = d.pubkey;
    withdrawal_credentials = d.withdrawal_credentials;
    effective_balance =
        min (d.amount - d.amount % C.effective_balance_increment) C.max_effective_balance;
    slashed = false;
    activation_eligibility_epoch = far_future_epoch;
    activation_epoch = far_future_epoch;
    exit_epoch = far_future_epoch;
    withdrawable_epoch = far_future_epoch;
  }

  unfoldable pub add_validator : DepositData → BeaconState → BeaconState
  add_validator d s = record s {
    validators = s.validators ++ new_validator d ∷ [];
    balances = s.balances ++ d.amount ∷ [];
  }

module _ (C : Config) (B : BlsConfig) where
  -- The deposit with its proof of possession; a wrong one adds nothing and is no error.
  unfoldable pub deposit_new : DepositData → M (Unit {0})
  deposit_new d = do
    possessed ← gets λ s.
        B.verify d.pubkey (C.hasher.signing_deposit_root (signing_deposit_data d)) d.signature
          (domain C s domain_deposit none)
    modify λ s. if possessed then add_validator C d s else s

  unfoldable pub process_deposit : Deposit → M (Unit {0})
  process_deposit deposit = do
    proved ← gets λ s.
        is_valid_merkle_branch C (C.hasher.deposit_data_root deposit.deposit_data) deposit.proof
          (deposit_contract_tree_depth + 1) s.eth1_deposit_index s.eth1_data.deposit_root
    require proved deposit_merkle_invalid
    modify λ s. record s { eth1_deposit_index = add64 s.eth1_deposit_index 1 }
    known ← gets (λ s. find_pubkey deposit.deposit_data.pubkey 0 s.validators)
    elim known [
      | none ↦ deposit_new deposit.deposit_data
      | some i ↦ increase_balance i deposit.deposit_data.amount
    ]

  unfoldable pub process_voluntary_exit : VoluntaryExit → M (Unit {0})
  process_voluntary_exit exit = do
    known ← gets (λ s. ltb exit.validator_index (length s.validators))
    require known voluntary_exit_invalid_signature
    validator ← reads (λ s. index s.validators exit.validator_index)
    epoch ← gets (current_epoch C)
    require (is_active validator epoch) voluntary_exit_already_initiated
    require (validator.exit_epoch == far_future_epoch) voluntary_exit_already_exited
    require (leb exit.epoch epoch) voluntary_exit_not_yet_valid
    require (leb (add64 validator.activation_epoch C.persistent_committee_period) epoch)
        voluntary_exit_not_long_enough
    signed ← gets λ s.
        B.verify validator.pubkey (C.hasher.exit_root (signing_exit exit)) exit.signature
          (domain C s domain_voluntary_exit (some exit.epoch))
    require signed voluntary_exit_invalid_signature
    initiate_validator_exit C exit.validator_index
