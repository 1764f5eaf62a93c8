-- ===== src/Config.antt =====
-- beacon/src/config.rs. `Digest` stands for what is not in the repository: the digest of the hash
-- library, and the tree roots and branch roots that the merkle libraries `bm` and `bm_le` compute with
-- it. The associated types of lengths are the numbers that their accessors return.
use shasper.Prelude.{ℕ, ◌<◌, ◌≡◌, Bool, true, Option, List, Bytes, length, replicate, arith}
use shasper.Types.{
  BeaconState, BeaconBlockBody, UnsealedBeaconBlock, SigningBeaconBlockHeader, HistoricalBatch,
  SigningDepositData, SigningVoluntaryExit, DepositData, AttestationDataAndCustodyBit,
}

pub record Digest : Type 0 where
  -- The 32 bytes of a digest.
  pub digest : Bytes → Bytes
  pub state_root : BeaconState → Bytes
  pub body_root : BeaconBlockBody → Bytes
  pub block_root : UnsealedBeaconBlock → Bytes
  pub header_root : SigningBeaconBlockHeader → Bytes
  pub historical_root : HistoricalBatch → Bytes
  pub deposit_data_root : DepositData → Bytes
  pub signing_deposit_root : SigningDepositData → Bytes
  pub exit_root : SigningVoluntaryExit → Bytes
  pub attestation_root : AttestationDataAndCustodyBit → Bytes
  pub uint_root : ℕ → Bytes
  -- The root that a leaf, a proof, a depth and an index lead to, if the proof has the right shape.
  pub branch_root : Bytes → List Bytes → ℕ → ℕ → Option Bytes

-- What the code relies on of the digest: it has 32 bytes.
pub record IsDigest (d : Digest) : Type 0 where
  pub digest_length : (b : Bytes) → length (d.digest b) ≡ 32

pub record BlsConfig : Type 0 where
  pub verify : Bytes → Bytes → Bytes → ℕ → Bool
  pub aggregate_pubkeys : List Bytes → Bytes
  pub aggregate_signatures : List Bytes → Bytes
  pub verify_multiple : List Bytes → List Bytes → Bytes → ℕ → Bool

-- `BLSNoVerification`.
abbrev pub bls_no_verification : BlsConfig
bls_no_verification = record {
  verify = λ pubkey message signature domain. true;
  aggregate_pubkeys = λ pubkeys. replicate 48 0;
  aggregate_signatures = λ signatures. replicate 96 0;
  verify_multiple = λ pubkeys messages signature domain. true;
}

pub record Config : Type 0 where
  pub hasher : Digest
  pub max_validators_per_committee : ℕ
  pub slots_per_historical_root : ℕ
  pub max_proposer_slashings : ℕ
  pub max_attester_slashings : ℕ
  pub max_attestations : ℕ
  pub max_deposits : ℕ
  pub max_voluntary_exits : ℕ
  pub historical_roots_limit : ℕ
  pub slots_per_epoch : ℕ
  pub slots_per_eth1_voting_period : ℕ
  pub validator_registry_limit : ℕ
  pub epochs_per_historical_vector : ℕ
  pub epochs_per_slashings_vector : ℕ
  pub max_committees_per_slot : ℕ
  pub target_committee_size : ℕ
  pub min_per_epoch_churn_limit : ℕ
  pub churn_limit_quotient : ℕ
  pub shuffle_round_count : ℕ
  pub min_genesis_active_validator_count : ℕ
  pub min_genesis_time : ℕ
  pub min_deposit_amount : ℕ
  pub max_effective_balance : ℕ
  pub ejection_balance : ℕ
  pub effective_balance_increment : ℕ
  pub genesis_slot : ℕ
  pub genesis_epoch : ℕ
  pub bls_withdrawal_prefix_byte : ℕ
  pub min_attestation_inclusion_delay : ℕ
  pub min_seed_lookahead : ℕ
  pub max_seed_lookahead : ℕ
  pub min_validator_withdrawability_delay : ℕ
  pub persistent_committee_period : ℕ
  pub max_epochs_per_crosslink : ℕ
  pub min_epochs_to_inactivity_penalty : ℕ
  pub base_reward_factor : ℕ
  pub whistleblower_reward_quotient : ℕ
  pub proposer_reward_quotient : ℕ
  pub inactivity_penalty_quotient : ℕ
  pub min_slashing_penalty_quotient : ℕ

-- The signature domains.
abbrev pub domain_beacon_proposer : ℕ
domain_beacon_proposer = 0

abbrev pub domain_beacon_attester : ℕ
domain_beacon_attester = 1

abbrev pub domain_randao : ℕ
domain_randao = 2

abbrev pub domain_deposit : ℕ
domain_deposit = 3

abbrev pub domain_voluntary_exit : ℕ
domain_voluntary_exit = 4

abbrev pub minimal_config : Digest → Config
minimal_config hasher = record {
  hasher = hasher;
  max_validators_per_committee = 2048;
  slots_per_historical_root = 64;
  max_proposer_slashings = 16;
  max_attester_slashings = 1;
  max_attestations = 128;
  max_deposits = 16;
  max_voluntary_exits = 16;
  historical_roots_limit = 16777216;
  slots_per_epoch = 8;
  slots_per_eth1_voting_period = 16;
  validator_registry_limit = 1099511627776;
  epochs_per_historical_vector = 64;
  epochs_per_slashings_vector = 64;
  max_committees_per_slot = 4;
  target_committee_size = 4;
  min_per_epoch_churn_limit = 4;
  churn_limit_quotient = 65536;
  shuffle_round_count = 10;
  min_genesis_active_validator_count = 64;
  min_genesis_time = 1578009600;
  min_deposit_amount = 1000000000;
  max_effective_balance = 32000000000;
  ejection_balance = 16000000000;
  effective_balance_increment = 1000000000;
  genesis_slot = 0;
  genesis_epoch = 0;
  bls_withdrawal_prefix_byte = 0x00;
  min_attestation_inclusion_delay = 1;
  min_seed_lookahead = 1;
  max_seed_lookahead = 4;
  min_validator_withdrawability_delay = 256;
  persistent_committee_period = 2048;
  max_epochs_per_crosslink = 4;
  min_epochs_to_inactivity_penalty = 4;
  base_reward_factor = 64;
  whistleblower_reward_quotient = 512;
  proposer_reward_quotient = 8;
  inactivity_penalty_quotient = 33554432;
  min_slashing_penalty_quotient = 32;
}

abbrev pub mainnet_config : Digest → Config
mainnet_config hasher = record {
  hasher = hasher;
  max_validators_per_committee = 2048;
  slots_per_historical_root = 8192;
  max_proposer_slashings = 16;
  max_attester_slashings = 1;
  max_attestations = 128;
  max_deposits = 16;
  max_voluntary_exits = 16;
  historical_roots_limit = 16777216;
  slots_per_epoch = 32;
  slots_per_eth1_voting_period = 1024;
  validator_registry_limit = 1099511627776;
  epochs_per_historical_vector = 65536;
  epochs_per_slashings_vector = 8192;
  max_committees_per_slot = 64;
  target_committee_size = 128;
  min_per_epoch_churn_limit = 4;
  churn_limit_quotient = 65536;
  shuffle_round_count = 90;
  min_genesis_active_validator_count = 65536;
  min_genesis_time = 1578009600;
  min_deposit_amount = 1000000000;
  max_effective_balance = 32000000000;
  ejection_balance = 16000000000;
  effective_balance_increment = 1000000000;
  genesis_slot = 0;
  genesis_epoch = 0;
  bls_withdrawal_prefix_byte = 0x00;
  min_attestation_inclusion_delay = 1;
  min_seed_lookahead = 1;
  max_seed_lookahead = 4;
  min_validator_withdrawability_delay = 256;
  persistent_committee_period = 2048;
  max_epochs_per_crosslink = 64;
  min_epochs_to_inactivity_penalty = 4;
  base_reward_factor = 64;
  whistleblower_reward_quotient = 512;
  proposer_reward_quotient = 8;
  inactivity_penalty_quotient = 33554432;
  min_slashing_penalty_quotient = 32;
}

abbrev pub sapphire_config : Digest → Config
sapphire_config hasher = record {
  hasher = hasher;
  max_validators_per_committee = 2048;
  slots_per_historical_root = 64;
  max_proposer_slashings = 16;
  max_attester_slashings = 1;
  max_attestations = 128;
  max_deposits = 16;
  max_voluntary_exits = 16;
  historical_roots_limit = 16777216;
  slots_per_epoch = 8;
  slots_per_eth1_voting_period = 16;
  validator_registry_limit = 1099511627776;
  epochs_per_historical_vector = 64;
  epochs_per_slashings_vector = 64;
  max_committees_per_slot = 4;
  target_committee_size = 4;
  min_per_epoch_churn_limit = 4;
  churn_limit_quotient = 65536;
  shuffle_round_count = 10;
  min_genesis_active_validator_count = 64;
  min_genesis_time = 1578009600;
  min_deposit_amount = 100;
  max_effective_balance = 3200000000;
  ejection_balance = 3000000000;
  effective_balance_increment = 1000000000;
  genesis_slot = 0;
  genesis_epoch = 0;
  bls_withdrawal_prefix_byte = 0x00;
  min_attestation_inclusion_delay = 1;
  min_seed_lookahead = 1;
  max_seed_lookahead = 4;
  min_validator_withdrawability_delay = 256;
  persistent_committee_period = 2048;
  max_epochs_per_crosslink = 4;
  min_epochs_to_inactivity_penalty = 4;
  base_reward_factor = 64;
  whistleblower_reward_quotient = 512;
  proposer_reward_quotient = 8;
  inactivity_penalty_quotient = 33554432;
  min_slashing_penalty_quotient = 32;
}

-- What the code takes for granted of a configuration: it divides by these numbers, and reads its
-- arrays at remainders by them.
pub record IsSane (C : Config) : Type 0 where
  pub slots_per_epoch_pos : 0 < C.slots_per_epoch
  pub slots_per_historical_root_pos : 0 < C.slots_per_historical_root
  pub epochs_per_historical_vector_pos : 0 < C.epochs_per_historical_vector
  pub epochs_per_slashings_vector_pos : 0 < C.epochs_per_slashings_vector
  pub target_committee_size_pos : 0 < C.target_committee_size
  pub min_per_epoch_churn_limit_pos : 0 < C.min_per_epoch_churn_limit
  pub effective_balance_increment_pos : 0 < C.effective_balance_increment

pub minimal_config-IsSane : (d : Digest) → IsSane (minimal_config d)
minimal_config-IsSane d = omega arith

pub mainnet_config-IsSane : (d : Digest) → IsSane (mainnet_config d)
mainnet_config-IsSane d = omega arith

pub sapphire_config-IsSane : (d : Digest) → IsSane (sapphire_config d)
sapphire_config-IsSane d = omega arith
