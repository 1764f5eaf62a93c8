-- ===== src/Tests/Samples.antt =====
-- A digest, a configuration and states to run the code on.
use shasper.Prelude.{ℕ, ◌+◌, ◌*◌, Bytes, [], ◌∷◌, le_bytes, of_le_bytes, some, true, false, refl}
use shasper.Types.{BeaconState, Validator, Checkpoint, zero_hash}
use shasper.Prelude.{replicate}
use shasper.Utils.{far_future_epoch}
use shasper.Config.{Digest, IsDigest, Config, minimal_config}
use shasper.Genesis.{initial_state}

-- Not a digest to rely on, but one that spreads its input over 32 bytes.
abbrev pub mixer : Digest
mixer = record {
  digest = λ b. le_bytes 32 (of_le_bytes b * 6364136223846793005 + 1442695040888963407);
  state_root = λ s. le_bytes 32 (s.slot + 1);
  body_root = λ b. zero_hash;
  block_root = λ b. zero_hash;
  header_root = λ h. le_bytes 32 (h.slot + 1);
  historical_root = λ b. zero_hash;
  deposit_data_root = λ d. zero_hash;
  signing_deposit_root = λ d. zero_hash;
  exit_root = λ x. zero_hash;
  attestation_root = λ a. zero_hash;
  uint_root = λ n. le_bytes 32 n;
  branch_root = λ leaf proof depth i. some zero_hash;
}

pub mixer-IsDigest : IsDigest mixer
mixer-IsDigest = record { digest_length = λ b. refl }

abbrev pub small : Config
small = minimal_config mixer

abbrev pub first_seed : Bytes
first_seed = le_bytes 32 7

abbrev pub checkpoint_at : ℕ → Checkpoint
checkpoint_at n = record { epoch = n; root = zero_hash }

-- The last slot of epoch 4, with the three epochs before it justified and no validators.
unfoldable pub late_state : BeaconState
unfolding initial_state
late_state =
    record (initial_state small 0
      (record { deposit_root = zero_hash; deposit_count = 0; block_hash = zero_hash })) {
        slot = 39;
        justification_bits = true ∷ true ∷ true ∷ false ∷ [];
        previous_justified_checkpoint = checkpoint_at 2;
        current_justified_checkpoint = checkpoint_at 3;
        finalized_checkpoint = checkpoint_at 1;
      }

-- The first slot, with one validator at stake.
abbrev pub staker : Validator
staker = record {
  pubkey = replicate 48 1;
  withdrawal_credentials = zero_hash;
  effective_balance = 32000000000;
  slashed = false;
  activation_eligibility_epoch = 0;
  activation_epoch = 0;
  exit_epoch = far_future_epoch;
  withdrawable_epoch = far_future_epoch;
}

unfoldable pub staked : BeaconState
unfolding initial_state
staked =
    record (initial_state small 0
      (record { deposit_root = zero_hash; deposit_count = 0; block_hash = zero_hash })) {
        validators = staker ∷ [];
        balances = 32000000000 ∷ [];
      }
