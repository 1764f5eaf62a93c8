-- ===== src/Genesis.antt =====
-- beacon/src/genesis.rs.
pub mod Shape
use shasper.Prelude.{ℕ, false, List, [], if◌then◌else◌, leb, map, replicate}
use shasper.Types.{
  BeaconState, Validator, Checkpoint, Eth1Data, Deposit, BeaconBlock, default_body, zero_hash,
}
use shasper.Outcome.{Outcome, ok, err, panic, diverge, ◌>>=◌}
use shasper.Config.{Config, BlsConfig}
use shasper.Executive.Monad.{for_each}
use shasper.Executive.Operations.Registry.{process_deposit}

-- What a call returns and the state that it leaves, as one outcome of a function that owns the state.
abbrev pub leaves : Outcome (Unit {0}) × BeaconState → Outcome BeaconState
leaves (ok _, s) = ok s
leaves (err e, s) = err e
leaves (panic, s) = panic
leaves (diverge, s) = diverge

abbrev pub default_checkpoint : Checkpoint
default_checkpoint = record { epoch = 0; root = zero_hash }

module _ (C : Config) where
  -- The state before the deposits, its mixes filled with the block hash.
  unfoldable pub initial_state : ℕ → Eth1Data → BeaconState
  initial_state genesis_time eth1_data = record {
    genesis_time = genesis_time;
    slot = 0;
    fork = record { previous_version = replicate 4 0; current_version = replicate 4 0; epoch = 0 };
    latest_block_header = record {
      slot = 0;
      parent_root = zero_hash;
      state_root = zero_hash;
      body_root = C.hasher.body_root default_body;
      signature = replicate 96 0;
    };
    block_roots = replicate C.slots_per_historical_root zero_hash;
    state_roots = replicate C.slots_per_historical_root zero_hash;
    historical_roots = [];
    eth1_data = eth1_data;
    eth1_data_votes = [];
    eth1_deposit_index = 0;
    validators = [];
    balances = [];
    randao_mixes = replicate C.epochs_per_historical_vector eth1_data.block_hash;
    slashings = replicate C.epochs_per_slashings_vector 0;
    previous_epoch_attestations = [];
    current_epoch_attestations = [];
    justification_bits = replicate 4 false;
    previous_justified_checkpoint = default_checkpoint;
    current_justified_checkpoint = default_checkpoint;
    finalized_checkpoint = default_checkpoint;
  }

  unfoldable pub activate_at_genesis : Validator → Validator
  activate_at_genesis v =
      if leb C.max_effective_balance v.effective_balance
      then record v {
        activation_eligibility_epoch = C.genesis_epoch;
        activation_epoch = C.genesis_epoch;
      }
      else v

module _ (C : Config) (B : BlsConfig) where
  unfoldable pub genesis_beacon_state : List Deposit → ℕ → Eth1Data → Outcome BeaconState
  genesis_beacon_state deposits genesis_time eth1_data =
      leaves (for_each deposits (process_deposit C B) (initial_state C genesis_time eth1_data))
      >>= λ s. ok (record s { validators = map (activate_at_genesis C) s.validators })

  unfoldable pub genesis : List Deposit → ℕ → Eth1Data → Outcome (BeaconBlock × BeaconState)
  genesis deposits genesis_time eth1_data =
      genesis_beacon_state deposits genesis_time eth1_data >>= λ s. ok (
        record {
          slot = 0;
          parent_root = zero_hash;
          state_root = C.hasher.state_root s;
          body = default_body;
          signature = replicate 96 0;
        },
        s,
      )
